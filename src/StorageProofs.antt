-- ===== src/StorageProofs.antt =====
-- Storage proofs: what a storage node answers to a challenge (Prove of internal/storage/node.go) and
-- the chain's check of it (internal/chain/storage_proof.go, and the leaf ranges and the proof hash
-- of state.go). SHA-256 in hex, of bytes and of text, and base64 are the fields of `Codec`, with the
-- documented facts that a digest is not empty and that decoding gives back what was encoded. The
-- node's disk is the argument `read_shard`, and the clock is `now`. The signature of the proof,
-- which wire.VerifyProof checks before, is left out.
pub mod Checks
pub mod Challenges
pub mod SampleCount
pub mod Sampled
pub mod Honest
use Prim.Native.String.{◌++◌}
use falari.Prelude.{
  ℕ, zero, suc, ◌+◌, ◌-◌, ◌*◌, String, ◌≡◌, ◌≢◌, Bool, true, false, not, ◌&&◌, ◌||◌, List, [], ◌∷◌,
  map, Option, none, some, Result, ok, err, fail_if, ◌>>=◌, ◌>>◌, str_eq, ltb, leb, ◌==◌,
  if◌then◌else◌, length,
}
use falari.Merkle.{MerkleProof, MerkleError, take, drop, build_merkle_proof, verify_merkle_proof}

pub record Codec : Type 0 where
  pub hash_bytes : List ℕ → String
  pub hash_string : String → String
  pub encode_base64 : List ℕ → String
  pub decode_base64 : String → Option (List ℕ)
  pub hash_bytes-ne : (xs : List ℕ) → hash_bytes xs ≢ ""
  pub hash_string-ne : (s : String) → hash_string s ≢ ""
  pub decode-encode : (xs : List ℕ) → decode_base64 (encode_base64 xs) ≡ some xs

-- HashPair (internal/crypto/hash.go)
abbrev pub hash_pair : Codec → String → String → String
hash_pair codec left right = codec.hash_string (left ++ right)

pub record LeafRange : Type 0 where
  pub leaf_index : ℕ
  pub offset : ℕ
  pub length : ℕ

pub record StorageChallenge : Type 0 where
  pub challenge_id : String
  pub proof_type : String
  pub shard_hash : String
  pub shard_size : ℕ
  pub sector_commitment : String
  pub miner_seal : String
  pub leaf_size : ℕ
  pub leaf_index : ℕ
  pub leaf_indices : List ℕ
  pub miner_address : String
  pub nonce : String
  pub challenge_hash : String
  pub leaf_ranges : List LeafRange
  pub expires_at_unix : ℕ

pub record StorageProof : Type 0 where
  pub challenge_id : String
  pub proof_type : String
  pub challenge_hash : String
  pub miner_address : String
  pub shard_hash : String
  pub shard_size : ℕ
  pub sector_commitment : String
  pub miner_seal : String
  pub leaf_size : ℕ
  pub leaf_index : ℕ
  pub leaf_indices : List ℕ
  pub leaf_hash : String
  pub leaf_hashes : List String
  pub leaf_data_base64 : String
  pub leaf_payloads_base64 : List String
  pub merkle_path : List String
  pub merkle_paths : List (List String)
  pub proof_hash : String

pub data ProveError : Type 0 where
  different_miner challenge_expired shard_not_found local_hash_mismatch : ProveError
  local_size_mismatch local_commitment_mismatch local_payload_mismatch : ProveError
  merkle : MerkleError → ProveError

pub data ProofError : Type 0 where
  shard_mismatch shard_size_mismatch commitment_mismatch miner_seal_mismatch : ProofError
  challenge_seal_mismatch leaf_size_mismatch proof_type_mismatch : ProofError
  challenge_hash_mismatch sample_count_mismatch leaf_challenge_mismatch : ProofError
  bad_payload_encoding payload_length_mismatch payload_hash_mismatch : ProofError
  bad_merkle_proof proof_hash_mismatch : ProofError

abbrev pub default_leaf_size : ℕ
default_leaf_size = 32 * 1024

abbrev pub sized : ℕ → ℕ
sized leaf_size = if leaf_size == 0 then default_leaf_size else leaf_size

-- strings.Join with a comma
abbrev pub join : List String → String
join [] = ""
join (x ∷ []) = x
join (x ∷ y ∷ rest) = x ++ "," ++ join (y ∷ rest)

abbrev pub first : {A : Type 0} → A → List A → A
first other [] = other
first other (x ∷ xs) = x

-- The single value of an old proof or challenge, where it has no list.
abbrev pub or_single : {A : Type 0} → A → List A → List A
or_single single [] = single ∷ []
or_single single (x ∷ xs) = x ∷ xs

unfoldable pub leaf_payload : List ℕ → ℕ → ℕ → List ℕ
leaf_payload bytes leaf_size index =
    let start = index * sized leaf_size in
    if leb (length bytes) start then [] else take (sized leaf_size) (drop start bytes)

unfoldable pub challenge_leaf_range : ℕ → ℕ → ℕ → LeafRange
challenge_leaf_range shard_size leaf_size index =
    let offset = index * sized leaf_size in
    if leb shard_size offset
    then record { leaf_index = index; offset = offset; length = 0 }
    else if ltb (shard_size - offset) (sized leaf_size)
    then record { leaf_index = index; offset = offset; length = shard_size - offset }
    else record { leaf_index = index; offset = offset; length = sized leaf_size }

abbrev pub challenge_indices : StorageChallenge → List ℕ
challenge_indices challenge = or_single challenge.leaf_index challenge.leaf_indices

unfoldable pub challenge_leaf_ranges_for_validation : StorageChallenge → List ℕ → List LeafRange
challenge_leaf_ranges_for_validation challenge indices =
    if length challenge.leaf_ranges == length indices
    then challenge.leaf_ranges
    else map (challenge_leaf_range challenge.shard_size challenge.leaf_size) indices

-- No payloads at all are an empty list, not a list of one.
abbrev pub proof_leaf_payloads : StorageProof → List String
proof_leaf_payloads proof = elim proof.leaf_payloads_base64 [
  | x ∷ xs ↦ x ∷ xs
  | [] ↦ if str_eq proof.leaf_data_base64 "" then [] else proof.leaf_data_base64 ∷ []
]

abbrev pub lift : {A : Type 0} → Result MerkleError A → Result ProveError A
lift (ok a) = ok a
lift (err e) = err (merkle e)

-- The three lists that the loop of Prove appends to.
pub record Samples : Type 0 where
  pub leaf_hashes : List String
  pub leaf_payloads : List String
  pub merkle_paths : List (List String)

abbrev pub add_sample : String → String → List String → Samples → Samples
add_sample hash payload path rest = record {
  leaf_hashes = hash ∷ rest.leaf_hashes;
  leaf_payloads = payload ∷ rest.leaf_payloads;
  merkle_paths = path ∷ rest.merkle_paths;
}

module _ (codec : Codec) where
  -- The hash of a node's proof, which knows of no seal.
  unfoldable pub proof_hash_of : StorageChallenge → List String → List String → String
  proof_hash_of challenge leaf_hashes leaf_payloads = codec.hash_string (
      challenge.challenge_id
      ++ ":"
      ++ challenge.nonce
      ++ ":"
      ++ challenge.challenge_hash
      ++ ":"
      ++ join leaf_hashes
      ++ ":"
      ++ join leaf_payloads
      ++ ":"
      ++ challenge.sector_commitment)

  -- The loop of Prove over the challenged leaves.
  unfoldable pub prove_samples : StorageChallenge → List ℕ → List ℕ → Result ProveError Samples
  prove_samples challenge bytes [] =
      ok (record { leaf_hashes = []; leaf_payloads = []; merkle_paths = [] })
  prove_samples challenge bytes (index ∷ indices) =
      let later = prove_samples challenge bytes indices in
      do
        built ←
            lift (
              build_merkle_proof codec.hash_bytes (hash_pair codec) bytes challenge.leaf_size index)
        fail_if (not (str_eq built.root challenge.sector_commitment)) local_commitment_mismatch
        let payload = leaf_payload bytes challenge.leaf_size index
        fail_if (not (str_eq (codec.hash_bytes payload) built.leaf_hash)) local_payload_mismatch
        rest ← later
        ok (add_sample built.leaf_hash (codec.encode_base64 payload) built.path rest)

  abbrev pub new_proof : StorageChallenge → String → ℕ → List ℕ → Samples → StorageProof
  new_proof challenge address size indices samples = record {
    challenge_id = challenge.challenge_id;
    proof_type = challenge.proof_type;
    challenge_hash = challenge.challenge_hash;
    miner_address = address;
    shard_hash = challenge.shard_hash;
    shard_size = size;
    sector_commitment = challenge.sector_commitment;
    miner_seal = "";
    leaf_size = challenge.leaf_size;
    leaf_index = first 0 indices;
    leaf_indices = indices;
    leaf_hash = first "" samples.leaf_hashes;
    leaf_hashes = samples.leaf_hashes;
    leaf_data_base64 = first "" samples.leaf_payloads;
    leaf_payloads_base64 = samples.leaf_payloads;
    merkle_path = first [] samples.merkle_paths;
    merkle_paths = samples.merkle_paths;
    proof_hash = proof_hash_of challenge samples.leaf_hashes samples.leaf_payloads;
  }

  abbrev pub found : Option (List ℕ) → Result ProveError (List ℕ)
  found none = err shard_not_found
  found (some bytes) = ok bytes

  unfoldable pub prove :
      String → (String → Option (List ℕ)) → ℕ → StorageChallenge → Result ProveError StorageProof
  prove address read_shard now challenge = do
    fail_if (not (str_eq challenge.miner_address address)) different_miner
    fail_if (ltb 0 challenge.expires_at_unix && ltb challenge.expires_at_unix now) challenge_expired
    bytes ← found (read_shard challenge.shard_hash)
    fail_if (not (str_eq (codec.hash_bytes bytes) challenge.shard_hash)) local_hash_mismatch
    fail_if (not (length bytes == challenge.shard_size)) local_size_mismatch
    samples ← prove_samples challenge bytes (challenge_indices challenge)
    ok (new_proof challenge address (length bytes) (challenge_indices challenge) samples)

  unfoldable pub compute_miner_seal : String → String → String
  compute_miner_seal sector_commitment miner_address =
      codec.hash_string (sector_commitment ++ ":" ++ miner_address)
