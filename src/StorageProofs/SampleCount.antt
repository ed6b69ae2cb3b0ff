-- ===== src/StorageProofs/SampleCount.antt =====
-- How many leaves a challenge samples.
use falari.Prelude.{
  ℕ, zero, suc, ◌+◌, ◌*◌, ◌/◌, ◌^◌, ◌≤◌, ◌<◌, ◌≡◌, ltb, lt→ltb, le→ltb_false, true, arith,
}
use Prim.Native.Nat.{min}
use native.Mathlib.Nat.{pow-suc}
use falari.Merkle.{leaf_count}
use falari.StorageProofs.Challenges.{add_samples, storage_proof_sample_count}

pow_pos : (k : ℕ) → 0 < 2 ^ k
pow_pos zero = omega arith
pow_pos (suc k) = omega (arith, pow-suc 2 k, pow_pos k)

-- The loop ends with two more samples for each halving; fuel of at least `n` is enough.
add_samples_lem :
    (k fuel n samples : ℕ)
    → n ≤ fuel
    → 2 ^ k ≤ n
    → n < 2 ^ suc k
    → add_samples fuel n samples ≡ samples + 2 * k
unfolding add_samples
add_samples_lem zero zero n samples enough low high = absurd (omega arith)
add_samples_lem zero (suc fuel) n samples enough low high =
    rw (le→ltb_false 1 n (omega arith)) (omega arith)
add_samples_lem (suc k) zero n samples enough low high =
    absurd (omega (arith, pow-suc 2 k, pow_pos k))
add_samples_lem (suc k) (suc fuel) n samples enough low high =
    let more : ltb 1 n ≡ true = lt→ltb 1 n (omega (arith, pow-suc 2 k, pow_pos k)) in
    rw (more, add_samples)
      (omega (
        arith,
        add_samples_lem k fuel (n / 2) (samples + 2) (omega (arith, pow_pos k, pow-suc 2 k))
            (omega (arith, pow-suc 2 k)) (omega (arith, pow-suc 2 (suc k))),
      ))

-- For a shard of `count` leaves, more than one, with 2^k ≤ count < 2^(k + 1), a challenge samples
-- `base + 2 * k` leaves, but at most 64, and at most all of them.
pub storage_proof_sample_count_lem :
    (shard_size leaf_size base k : ℕ)
    → 1 < leaf_count shard_size leaf_size
    → 2 ^ k ≤ leaf_count shard_size leaf_size
    → leaf_count shard_size leaf_size < 2 ^ suc k
    → storage_proof_sample_count shard_size leaf_size base
      ≡ min (leaf_count shard_size leaf_size) (min 64 (base + 2 * k))
unfolding storage_proof_sample_count
storage_proof_sample_count_lem shard_size leaf_size base k many low high =
    let count = leaf_count shard_size leaf_size in
    ground (arith, add_samples_lem k count count base (omega arith) low high)
