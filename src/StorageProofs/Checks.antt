-- ===== src/StorageProofs/Checks.antt =====
-- The chain's check of a storage proof (validateStorageProof of internal/chain/storage_proof.go).
use Prim.Native.String.{◌++◌}
use falari.Prelude.{
  ℕ, String, Bool, not, ◌&&◌, List, ◌∷◌, Option, none, some, Result, ok, err, fail_if, ◌>>=◌, ◌>>◌,
  str_eq, ◌==◌, if◌then◌else◌, length,
}
use falari.Merkle.{verify_merkle_proof}
use falari.StorageProofs.{
  Codec, hash_pair, LeafRange, StorageChallenge, StorageProof, ProofError, shard_mismatch,
  shard_size_mismatch, commitment_mismatch, miner_seal_mismatch, challenge_seal_mismatch,
  leaf_size_mismatch, proof_type_mismatch, challenge_hash_mismatch, sample_count_mismatch,
  leaf_challenge_mismatch, bad_payload_encoding, payload_length_mismatch, payload_hash_mismatch,
  bad_merkle_proof, proof_hash_mismatch, join, or_single, challenge_indices,
  challenge_leaf_ranges_for_validation, proof_leaf_payloads, compute_miner_seal,
}

abbrev pub decoded : Option (List ℕ) → Result ProofError (List ℕ)
decoded none = err bad_payload_encoding
decoded (some bytes) = ok bytes

-- A field that may be left empty must match where it is set.
abbrev pub differs_if_set : String → String → Bool
differs_if_set expected given = not (str_eq expected "") && not (str_eq given expected)

module _ (codec : Codec) where
  -- expectedProofHash
  unfoldable pub expected_proof_hash : StorageChallenge → List String → List String → String
  expected_proof_hash challenge leaf_hashes leaf_payloads =
      let base =
        challenge.challenge_id
        ++ ":"
        ++ challenge.nonce
        ++ ":"
        ++ challenge.challenge_hash
        ++ ":"
        ++ join leaf_hashes
        ++ ":"
        ++ join leaf_payloads
        ++ ":"
        ++ challenge.sector_commitment in
      codec.hash_string
        (if str_eq challenge.miner_seal "" then base else base ++ ":" ++ challenge.miner_seal)

  -- One round of the loop.
  unfoldable pub check_sample :
      String → ℕ → ℕ → LeafRange → String → String → List String → Result ProofError (Unit {0})
  check_sample commitment expected_index index range payload leaf_hash path = do
    fail_if (not (index == expected_index)) leaf_challenge_mismatch
    bytes ← decoded (codec.decode_base64 payload)
    fail_if (not (length bytes == range.length)) payload_length_mismatch
    fail_if (not (str_eq (codec.hash_bytes bytes) leaf_hash)) payload_hash_mismatch
    fail_if (not (verify_merkle_proof (hash_pair codec) commitment leaf_hash expected_index path))
        bad_merkle_proof

  -- The loop, over lists whose lengths were compared before.
  unfoldable pub check_samples :
      String
      → List ℕ
      → List ℕ
      → List LeafRange
      → List String
      → List String
      → List (List String)
      → Result ProofError (Unit {0})
  check_samples commitment (e ∷ es) (i ∷ is) (r ∷ rs) (p ∷ ps) (h ∷ hs) (path ∷ paths) =
      let later = check_samples commitment es is rs ps hs paths in
      do check_sample commitment e i r p h path; later
  check_samples commitment _ _ _ _ _ _ = ok tt

  unfoldable pub check_seal : StorageChallenge → StorageProof → Result ProofError (Unit {0})
  check_seal challenge proof = if str_eq challenge.miner_seal "" then ok tt else do
    fail_if (not (str_eq proof.miner_seal challenge.miner_seal)) miner_seal_mismatch
    fail_if
        (not (
          str_eq challenge.miner_seal
            (compute_miner_seal codec challenge.sector_commitment challenge.miner_address)))
        challenge_seal_mismatch

  unfoldable pub check_contents : StorageChallenge → StorageProof → Result ProofError (Unit {0})
  check_contents challenge proof = do
    let indices = challenge_indices challenge
    let proof_indices = or_single proof.leaf_index proof.leaf_indices
    let leaf_hashes = or_single proof.leaf_hash proof.leaf_hashes
    let paths = or_single proof.merkle_path proof.merkle_paths
    let payloads = proof_leaf_payloads proof
    fail_if
        (not (
          length proof_indices == length indices
          && length leaf_hashes == length indices
          && length paths == length indices
          && length payloads == length indices))
        sample_count_mismatch
    let ranges = challenge_leaf_ranges_for_validation challenge indices
    check_samples proof.sector_commitment indices proof_indices ranges payloads leaf_hashes paths
    fail_if (not (str_eq proof.proof_hash (expected_proof_hash challenge leaf_hashes payloads)))
        proof_hash_mismatch

  unfoldable pub validate_storage_proof :
      StorageChallenge → StorageProof → Result ProofError (Unit {0})
  validate_storage_proof challenge proof = do
    fail_if (not (str_eq proof.shard_hash challenge.shard_hash)) shard_mismatch
    fail_if (not (proof.shard_size == challenge.shard_size)) shard_size_mismatch
    fail_if (not (str_eq proof.sector_commitment challenge.sector_commitment)) commitment_mismatch
    check_seal challenge proof
    fail_if (not (proof.leaf_size == challenge.leaf_size)) leaf_size_mismatch
    fail_if (differs_if_set challenge.proof_type proof.proof_type) proof_type_mismatch
    fail_if (differs_if_set challenge.challenge_hash proof.challenge_hash) challenge_hash_mismatch
    check_contents challenge proof
