-- ===== src/StorageProofs/Sampled.antt =====
-- The samples that a node collects pass the chain's checks, one by one.
use falari.Prelude.{
  ℕ, zero, suc, ◌*◌, String, ◌≡◌, refl, ap, List, [], ◌∷◌, map, ok, Result-cases, inl, inr, eq_iff,
  ltb, if◌then◌else◌, length, arith,
}
use falari.Merkle.{MerkleProof, take, drop, build_merkle_proof, verify_merkle_proof}
use falari.Merkle.RoundTrip.{built-verifies}
use falari.Merkle.Leaves.{length-drop}
use falari.StorageProofs.{
  Codec, hash_pair, StorageChallenge, Samples, sized, leaf_payload, challenge_leaf_range,
  prove_samples, add_sample,
}
use falari.StorageProofs.Checks.{check_sample, check_samples}

length-take :
    (n : ℕ) (xs : List ℕ) → length (take n xs) ≡ (if ltb (length xs) n then length xs else n)
length-take zero xs = ground arith
length-take (suc n) [] = ground arith
length-take (suc n) (x ∷ xs) = ground (arith, length-take n xs)

-- The bytes of a leaf are as many as the chain's range says.
length-leaf_payload :
    (bytes : List ℕ) (n i : ℕ)
    → length (leaf_payload bytes n i) ≡ (challenge_leaf_range (length bytes) n i).length
unfolding leaf_payload challenge_leaf_range
length-leaf_payload bytes n i =
    ground
      (arith, length-take (sized n) (drop (i * sized n) bytes), length-drop (i * sized n) bytes)

module _ (codec : Codec) where
  sample_passes :
      (bytes : List ℕ) (n i : ℕ) (built : MerkleProof) (commitment : String)
      → build_merkle_proof codec.hash_bytes (hash_pair codec) bytes n i ≡ ok built
      → built.root ≡ commitment
      → codec.hash_bytes (leaf_payload bytes n i) ≡ built.leaf_hash
      → check_sample codec commitment i i
          (challenge_leaf_range (length bytes) n i)
          (codec.encode_base64 (leaf_payload bytes n i))
          built.leaf_hash
          built.path
        ≡ ok tt
  unfolding check_sample
  sample_passes bytes n i built commitment is_built root hash = ground (
    arith,
    codec.decode-encode (leaf_payload bytes n i),
    length-leaf_payload bytes n i,
    eq_iff (codec.hash_bytes (leaf_payload bytes n i)) built.leaf_hash,
    ap (λ (r : String). verify_merkle_proof (hash_pair codec) r built.leaf_hash i built.path) root,
    built-verifies codec.hash_bytes (hash_pair codec) codec.hash_bytes-ne
        (λ a b. codec.hash_string-ne _) bytes n i built is_built,
  )

  -- What a round of Prove found out.
  prove_samples_step :
      (challenge : StorageChallenge) (bytes : List ℕ) (i : ℕ) (is : List ℕ) {samples : Samples}
      → prove_samples codec challenge bytes (i ∷ is) ≡ ok samples
      → (built : MerkleProof) × (rest : Samples) × (build_merkle_proof codec.hash_bytes
            (hash_pair codec)
            bytes
            challenge.leaf_size
            i
          ≡ ok built)
        × (built.root ≡ challenge.sector_commitment)
        × (codec.hash_bytes (leaf_payload bytes challenge.leaf_size i) ≡ built.leaf_hash)
        × (prove_samples codec challenge bytes is ≡ ok rest)
        × (samples
            ≡ add_sample built.leaf_hash
                (codec.encode_base64 (leaf_payload bytes challenge.leaf_size i))
                built.path
                rest)
  unfolding prove_samples
  prove_samples_step challenge bytes i is h =
      elim (Result-cases
        (build_merkle_proof codec.hash_bytes (hash_pair codec) bytes challenge.leaf_size i)) [
          | inr (e, failed) ↦ absurd (ground (arith, failed))
          | inl (built, is_built) ↦ elim (Result-cases (prove_samples codec challenge bytes is)) [
            | inr (e, failed) ↦ absurd (ground (arith, is_built, failed))
            | inl (rest, is_rest) ↦ (
              built,
              rest,
              is_built,
              ground (arith, is_built, eq_iff built.root challenge.sector_commitment),
              ground (
                arith,
                is_built,
                eq_iff (codec.hash_bytes (leaf_payload bytes challenge.leaf_size i))
                    built.leaf_hash,
              ),
              is_rest,
              ground (arith, is_built, is_rest),
            )
          ]
        ]

  -- All the samples that a node collects are accepted, against the ranges that the chain computes.
  pub samples_pass :
      (challenge : StorageChallenge) (bytes : List ℕ) (is : List ℕ) (samples : Samples)
      → prove_samples codec challenge bytes is ≡ ok samples
      → check_samples codec challenge.sector_commitment is is
          (map (challenge_leaf_range (length bytes) challenge.leaf_size) is)
          samples.leaf_payloads
          samples.leaf_hashes
          samples.merkle_paths
        ≡ ok tt
  unfolding check_samples
  samples_pass challenge bytes [] samples h = refl
  samples_pass challenge bytes (i ∷ is) samples h =
      let (built, rest, is_built, root, hash, is_rest, shape) =
        prove_samples_step challenge bytes i is h in
      rw shape (
        rw (
          sample_passes bytes challenge.leaf_size i built challenge.sector_commitment is_built root
              hash,
          samples_pass challenge bytes is rest is_rest,
        ))

  -- There are as many samples as challenged leaves.
  pub samples_count :
      (challenge : StorageChallenge) (bytes : List ℕ) (is : List ℕ) (samples : Samples)
      → prove_samples codec challenge bytes is ≡ ok samples
      → (length samples.leaf_hashes ≡ length is)
        × (length samples.leaf_payloads ≡ length is)
        × (length samples.merkle_paths ≡ length is)
  unfolding prove_samples
  samples_count challenge bytes [] samples h = ground arith
  samples_count challenge bytes (i ∷ is) samples h =
      let (built, rest, is_built, root, hash, is_rest, shape) =
        prove_samples_step challenge bytes i is h in
      let (a, b, c) = samples_count challenge bytes is rest is_rest in
      rw shape (omega arith, omega arith, omega arith)
