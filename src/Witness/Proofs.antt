-- ===== src/Witness/Proofs.antt =====
-- Examples for Merkle proofs and storage proofs: a shard of three bytes in leaves of two, with a
-- coding of bytes in unary and digests that mark what they hash.
use Prim.Native.Nat.{min}
use Prim.Native.Char.{code}
use falari.Prelude.{
  ◌⊎◌, ℕ, zero, suc, ◌+◌, ◌*◌, String, ◌≡◌, ◌≢◌, refl, ap, ◌∙◌, true, List, [], ◌∷◌, map, some,
  Option, ok, err, arith, ◌==◌, if◌then◌else◌,
}
use falari.Merkle.{
  MerkleProof, build_merkle_proof, data_merkle_root, merkle_root, leaf_hashes, verify_merkle_proof,
  leaf_count, take, drop, chunk_hashes, climb, next_level, sibling,
}
use falari.Merkle.RoundTrip.{built_proof_verifies, data_merkle_root-eq-merkle_root}
use falari.Merkle.Binding.{Collision}
use falari.Merkle.Commitment.{data_merkle_root-commits}
use falari.StorageProofs.{
  Codec, hash_pair, StorageChallenge, StorageProof, miner_seal_mismatch, challenge_leaf_range,
  prove, prove_samples, leaf_payload, default_leaf_size,
}
use falari.StorageProofs.Checks.{validate_storage_proof}
use falari.StorageProofs.Challenges.{
  MinerReceipt, storage_challenge_for_receipt, storage_proof_sample_count,
}
use falari.StorageProofs.SampleCount.{storage_proof_sample_count_lem}
use falari.StorageProofs.Honest.{honest_proof_accepted, sealed_challenge_refuses_node}

ones : ℕ → String → String
ones zero s = s
ones (suc n) s = String.◌∷◌ "1" (ones n s)

encode : List ℕ → String
encode [] = ""
encode (n ∷ ns) = ones n (String.◌∷◌ "0" (encode ns))

decode : ℕ → String → List ℕ
decode n String.[] = []
decode n (String.◌∷◌ c s) =
    let one = decode (suc n) s in let all = n ∷ decode 0 s in if code c == b'1' then one else all

decode-ones : (n m : ℕ) (s : String) → decode m (ones n (String.◌∷◌ "0" s)) ≡ (n + m) ∷ decode 0 s
unfolding decode ones
decode-ones zero m s = let e : zero + m ≡ m = omega arith in rw e
decode-ones (suc n) m s =
    let e : suc n + m ≡ n + suc m = omega arith in rw e (decode-ones n (suc m) s)

decode-encode : (ns : List ℕ) → decode 0 (encode ns) ≡ ns
unfolding decode encode
decode-encode [] = refl
decode-encode (n ∷ ns) =
    let e : n + 0 ≡ n = omega arith in decode-ones n 0 (encode ns) ∙ rw (e, decode-encode ns)

marked-ne : (s : String) → String.◌∷◌ "#" s ≢ ""
marked-ne s h = cc

mark : String → String
mark s = String.◌∷◌ "#" s

mark-ne : (s : String) → mark s ≢ ""
unfolding mark
mark-ne s = marked-ne s

abbrev codec : Codec
codec = record {
  hash_bytes = λ xs. mark (encode xs);
  hash_string = mark;
  encode_base64 = encode;
  decode_base64 = λ s. some (decode 0 s);
  hash_bytes-ne = λ xs. mark-ne (encode xs);
  hash_string-ne = mark-ne;
  decode-encode = λ xs. ap some (decode-encode xs);
}

abbrev shard : List ℕ
shard = 3 ∷ 1 ∷ 2 ∷ []

leaves_of_shard : leaf_count 3 2 ≡ 2
unfolding leaf_count
leaves_of_shard = refl

built_proof_verifies_example :
    (proof : MerkleProof) × (build_merkle_proof codec.hash_bytes (hash_pair codec) shard 2 1
      ≡ ok proof)
    × (proof.leaf_hash ≡ codec.hash_bytes (take 2 (drop (1 * 2) shard)))
    × (proof.root ≡ data_merkle_root codec.hash_bytes (hash_pair codec) shard 2)
    × (verify_merkle_proof (hash_pair codec) proof.root proof.leaf_hash 1 proof.path ≡ true)
built_proof_verifies_example =
    built_proof_verifies codec.hash_bytes (hash_pair codec) codec.hash_bytes-ne
      (λ a b. codec.hash_string-ne _) shard 2 1 (omega arith) (omega arith)
      (omega (arith, leaves_of_shard))

data_merkle_root-eq-merkle_root_example :
    merkle_root codec.hash_bytes (hash_pair codec) (leaf_hashes codec.hash_bytes shard 2)
    ≡ some (data_merkle_root codec.hash_bytes (hash_pair codec) shard 2)
data_merkle_root-eq-merkle_root_example =
    data_merkle_root-eq-merkle_root codec.hash_bytes (hash_pair codec) shard 2 (omega arith)

-- A pair hash that always collides, and a shard that differs in its last leaf.
abbrev constant : String → String → String
constant a b = "#"

constant-ne : (a b : String) → constant a b ≢ ""
constant-ne a b = marked-ne ""

abbrev other_shard : List ℕ
other_shard = 3 ∷ 1 ∷ 5 ∷ []

same_root :
    data_merkle_root codec.hash_bytes constant shard 2
    ≡ data_merkle_root codec.hash_bytes constant other_shard 2
unfolding data_merkle_root build_merkle_proof climb next_level leaf_hashes chunk_hashes
same_root = refl

last_leaf_differs : take 2 (drop (1 * 2) shard) ≢ take 2 (drop (1 * 2) other_shard)
last_leaf_differs e = ground arith

data_merkle_root-commits_example :
    ((take 2 (drop (1 * 2) shard) ≢ take 2 (drop (1 * 2) other_shard))
      × (codec.hash_bytes (take 2 (drop (1 * 2) shard))
          ≡ codec.hash_bytes (take 2 (drop (1 * 2) other_shard))))
    ⊎ Collision constant (λ s. s ≢ "") constant-ne
data_merkle_root-commits_example =
    data_merkle_root-commits codec.hash_bytes constant codec.hash_bytes-ne constant-ne (λ s. s ≢ "")
      codec.hash_bytes-ne constant-ne shard other_shard 2 1 (omega arith) (omega arith) refl
      (omega (arith, leaves_of_shard)) same_root last_leaf_differs

abbrev disk : String → Option (List ℕ)
disk hash = some shard

abbrev challenge : StorageChallenge
challenge = record {
  challenge_id = "c1";
  proof_type = "merkle-por-v1";
  shard_hash = codec.hash_bytes shard;
  shard_size = 3;
  sector_commitment = data_merkle_root codec.hash_bytes (hash_pair codec) shard 2;
  miner_seal = "";
  leaf_size = 2;
  leaf_index = 1;
  leaf_indices = 1 ∷ [];
  miner_address = "miner";
  nonce = "n";
  challenge_hash = "ch";
  leaf_ranges = map (challenge_leaf_range 3 2) (1 ∷ []);
  expires_at_unix = 0;
}

abbrev blank : StorageProof
blank = record {
  challenge_id = "";
  proof_type = "";
  challenge_hash = "";
  miner_address = "";
  shard_hash = "";
  shard_size = 0;
  sector_commitment = "";
  miner_seal = "";
  leaf_size = 0;
  leaf_index = 0;
  leaf_indices = [];
  leaf_hash = "";
  leaf_hashes = [];
  leaf_data_base64 = "";
  leaf_payloads_base64 = [];
  merkle_path = [];
  merkle_paths = [];
  proof_hash = "";
}

answer : StorageChallenge → StorageProof
answer ch = elim (prove codec "miner" disk 10 ch) [ ok proof ↦ proof | err _ ↦ blank ]

proved : prove codec "miner" disk 10 challenge ≡ ok (answer challenge)
unfolding answer prove prove_samples leaf_payload build_merkle_proof leaf_hashes chunk_hashes climb
    next_level sibling mark encode ones data_merkle_root
proved = refl

honest_proof_accepted_example : validate_storage_proof codec challenge (answer challenge) ≡ ok tt
honest_proof_accepted_example =
    honest_proof_accepted codec "miner" disk 10 challenge (answer challenge) refl refl proved

-- A receipt for the same shard, which fits in one leaf of the usual size.
abbrev receipt : MinerReceipt
receipt = record {
  shard_hash = codec.hash_bytes shard;
  shard_size = 3;
  sector_commitment = data_merkle_root codec.hash_bytes (hash_pair codec) shard default_leaf_size;
  miner_address = "miner";
}

sealed : StorageChallenge
sealed = storage_challenge_for_receipt codec receipt "c2" "n" 100 (0 ∷ []) "ch"

proved_sealed : prove codec "miner" disk 10 sealed ≡ ok (answer sealed)
unfolding sealed storage_challenge_for_receipt answer prove prove_samples leaf_payload
    build_merkle_proof leaf_hashes chunk_hashes climb next_level sibling mark encode ones
    data_merkle_root
proved_sealed = refl

sealed_challenge_refuses_node_example :
    validate_storage_proof codec sealed (answer sealed) ≡ err miner_seal_mismatch
unfolding sealed
sealed_challenge_refuses_node_example =
    sealed_challenge_refuses_node codec "miner" disk 10 receipt "c2" "n" 100 (0 ∷ []) "ch"
      (answer sealed) proved_sealed

four_leaves : leaf_count 8 2 ≡ 4
unfolding leaf_count
four_leaves = refl

storage_proof_sample_count_lem_example :
    storage_proof_sample_count 8 2 16 ≡ min (leaf_count 8 2) (min 64 (16 + 2 * 2))
storage_proof_sample_count_lem_example =
    storage_proof_sample_count_lem 8 2 16 2 (omega (arith, four_leaves))
      (omega (arith, four_leaves)) (omega (arith, four_leaves))
