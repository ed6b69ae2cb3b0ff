-- ===== src/StorageProofs/Challenges.antt =====
-- The challenges that the chain makes (internal/chain/state.go: storageProofSampleCount,
-- storageChallengeForReceiptLocked). The sampled indices, which come from digests, and the challenge
-- hash are arguments.
use falari.Prelude.{ℕ, zero, suc, ◌+◌, ◌/◌, String, List, map, ltb, leb, if◌then◌else◌}
use falari.Merkle.{leaf_count}
use falari.StorageProofs.{
  Codec, StorageChallenge, default_leaf_size, challenge_leaf_range, first, compute_miner_seal,
}

-- `for n := leafCount; n > 1; n >>= 1 { samples += 2 }`, on fuel.
unfoldable pub add_samples : ℕ → ℕ → ℕ → ℕ
add_samples zero n samples = samples
add_samples (suc fuel) n samples =
    let rest = add_samples fuel (n / 2) (samples + 2) in if ltb 1 n then rest else samples

-- base_samples is not negative: the parameter is bounded below by minStorageProofSamples.
unfoldable pub storage_proof_sample_count : ℕ → ℕ → ℕ → ℕ
storage_proof_sample_count shard_size leaf_size base_samples =
    let count = leaf_count shard_size leaf_size in
    if leb count 1
    then 1
    else (let samples = add_samples count count base_samples in
        let capped = if ltb 64 samples then 64 else samples in
        if ltb count capped then count else capped)

-- wire.MinerReceipt, as far as a challenge reads it.
pub record MinerReceipt : Type 0 where
  pub shard_hash : String
  pub shard_size : ℕ
  pub sector_commitment : String
  pub miner_address : String

unfoldable pub storage_challenge_for_receipt :
    Codec → MinerReceipt → String → String → ℕ → List ℕ → String → StorageChallenge
storage_challenge_for_receipt codec receipt challenge_id nonce deadline indices challenge_hash =
    record {
      challenge_id = challenge_id;
      proof_type = "merkle-por-v1";
      shard_hash = receipt.shard_hash;
      shard_size = receipt.shard_size;
      sector_commitment = receipt.sector_commitment;
      miner_seal = compute_miner_seal codec receipt.sector_commitment receipt.miner_address;
      leaf_size = default_leaf_size;
      leaf_index = first 0 indices;
      leaf_indices = indices;
      miner_address = receipt.miner_address;
      nonce = nonce;
      challenge_hash = challenge_hash;
      leaf_ranges = map (challenge_leaf_range receipt.shard_size default_leaf_size) indices;
      expires_at_unix = deadline;
    }
