-- ===== src/Vesting/Schedule.antt =====
-- The schedule by which one bucket is released.
use native.Mathlib.Nat.{mul-le-mul_left, mul-zero}
use falari.Prelude.{
  ℕ, ◌+◌, ◌-◌, ◌*◌, ◌/◌, ◌≤◌, ◌<◌, ◌≡◌, ap, ◌∙◌, inl, inr, Bool-cases, ltb, ◌==◌, if◌then◌else◌,
  arith,
}
use falari.Arith.{u64_mod}
use falari.Types.{MiningRewardVestingBucket}
use falari.Vesting.{bucket_releasable, target_released}

-- What is due after so many days, where the product fits in 64 bits.
abbrev due : ℕ → ℕ → ℕ
due total days = if ltb days 90 then total * days / 90 else total

pub mul_below : (total e : ℕ) → e < 90 → total * e ≤ total * 90
mul_below total e h = mul-le-mul_left total (omega arith)

-- The days that have passed, cut at 90, give what is due.
capped_target :
    (total e : ℕ)
    → total * 90 < u64_mod
    → 0 < e
    → target_released total (if ltb 90 e then 90 else e) ≡ due total e
unfolding target_released
capped_target total e fits h = ground (arith, mul_below total e)

due_zero : (total : ℕ) → due total 0 ≡ 0
due_zero total = omega (arith, mul-zero total)

due-le : (total m n : ℕ) → m ≤ n → due total m ≤ due total n
due-le total m n h = ground (arith, mul-le-mul_left total h, mul_below total m)

due-le-total : (total e : ℕ) → due total e ≤ total
due-le-total total e = ground (arith, mul_below total e)

abbrev elapsed : MiningRewardVestingBucket → ℕ → ℕ
elapsed bucket now = (now - bucket.day_unix) / 86400

bucket_releasable-eq-due :
    (bucket : MiningRewardVestingBucket) (now : ℕ)
    → bucket.total * 90 < u64_mod
    → 0 < bucket.day_unix
    → bucket_releasable bucket now ≡ due bucket.total (elapsed bucket now) - bucket.released
unfolding bucket_releasable
bucket_releasable-eq-due bucket now fits day =
    let e = elapsed bucket now in
    elim (Bool-cases (e == 0)) [
      | inl z ↦
          (let zero_days : e ≡ 0 = ground arith in
            ground (arith, z, ap (due bucket.total) zero_days ∙ due_zero bucket.total))
      | inr z ↦ ground (arith, z, due-le-total bucket.total e, capped_target bucket.total e fits)
    ]

first_day : (bucket : MiningRewardVestingBucket) → elapsed bucket (bucket.day_unix + 86399) ≡ 0
first_day bucket = omega arith

full : (bucket : MiningRewardVestingBucket) → elapsed bucket (bucket.day_unix + 90 * 86400) ≡ 90
full bucket = omega arith

-- A bucket of at most a ninetieth of the uint64 range gives nothing in its first day, the more the
-- later it is asked, never more than it has left, and all that it has left from 90 days on.
pub bucket_releasable_schedule :
    (bucket : MiningRewardVestingBucket) (now later : ℕ)
    → bucket.total * 90 < u64_mod
    → 0 < bucket.day_unix
    → now ≤ later
    → (bucket_releasable bucket now ≤ bucket_releasable bucket later)
      × (bucket_releasable bucket later ≤ bucket.total - bucket.released)
      × (bucket_releasable bucket (bucket.day_unix + 86399) ≡ 0)
      × (bucket_releasable bucket (bucket.day_unix + 90 * 86400) ≡ bucket.total - bucket.released)
bucket_releasable_schedule bucket now later fits day h =
    let at = λ (t : ℕ). bucket_releasable-eq-due bucket t fits day in
    (
      omega (
        arith,
        at now,
        at later,
        due-le bucket.total (elapsed bucket now) (elapsed bucket later) (omega arith),
      ),
      omega (arith, at later, due-le-total bucket.total (elapsed bucket later)),
      at (bucket.day_unix + 86399)
          ∙ omega (arith, ap (due bucket.total) (first_day bucket), due_zero bucket.total),
      at (bucket.day_unix + 90 * 86400)
          ∙ ap (λ (d : ℕ). due bucket.total d - bucket.released) (full bucket),
    )
