-- ===== src/Escrow/Accrual.antt =====
-- What has accrued of a deal's fee at a time.
use falari.Prelude.{ℕ, zero, suc, ◌-◌, ◌*◌, ◌/◌, ◌≤◌, ◌<◌, arith}
use native.Mathlib.Nat.{div-le_of_le-mul, le-div_iff_mul-le, div-mul-le_self, mul-le-mul_left}
use falari.Arith.{mul_div_uint64}
use falari.Types.{DealEscrow, Intent}
use falari.Escrow.{finite_deal_escrow_accrued, accrued_since, start_of, duration_of}

div_mono : (a b k : ℕ) → 0 < k → a ≤ b → a / k ≤ b / k
div_mono a b k pos h =
    (le-div_iff_mul-le {x = a / k} {y = b} pos).1 (omega (arith, div-mul-le_self a k))

share_le :
    (locked elapsed duration : ℕ)
    → 0 < duration
    → elapsed ≤ duration
    → locked * elapsed * 1 / duration ≤ locked
share_le locked elapsed duration pos h =
    div-le_of_le-mul duration (grind (arith, mul-le-mul_left {m = elapsed} {n = duration} locked h))

-- A share of the time gives a share of the fee, which grows with the time and stays below the fee.
mul_div-le :
    (locked elapsed duration : ℕ)
    → elapsed ≤ duration
    → mul_div_uint64 locked elapsed 1 duration ≤ locked
unfolding mul_div_uint64
mul_div-le locked elapsed zero h = ground arith
mul_div-le locked elapsed (suc d) h =
    ground (arith, share_le locked elapsed (suc d) (omega arith) h)

mul_div_mono :
    (locked e e' duration : ℕ)
    → e ≤ e'
    → mul_div_uint64 locked e 1 duration ≤ mul_div_uint64 locked e' 1 duration
unfolding mul_div_uint64
mul_div_mono locked e e' zero h = ground arith
mul_div_mono locked e e' (suc d) h = ground (
  arith,
  div_mono (locked * e * 1) (locked * e' * 1) (suc d) (omega arith)
      (omega (arith, mul-le-mul_left locked h)),
)

accrued_since-mono_bounded :
    (start duration fee now later : ℕ)
    → now ≤ later
    → (accrued_since start duration fee now ≤ accrued_since start duration fee later)
      × (accrued_since start duration fee later ≤ fee)
unfolding accrued_since
accrued_since-mono_bounded start duration fee now later h = ground (
  arith,
  mul_div_mono fee (now - start) (later - start) duration (omega arith),
  mul_div-le fee (now - start) duration,
  mul_div-le fee (later - start) duration,
)

-- What has accrued to the miners of a deal never falls as time passes, and never exceeds the fee
-- that the deal has locked.
pub accrued-mono_bounded :
    (escrow : DealEscrow) (intent : Intent) (now later : ℕ)
    → now ≤ later
    → (finite_deal_escrow_accrued escrow intent now
        ≤ finite_deal_escrow_accrued escrow intent later)
      × (finite_deal_escrow_accrued escrow intent later ≤ escrow.locked_fee)
unfolding finite_deal_escrow_accrued
accrued-mono_bounded escrow intent now later h = ground (
  arith,
  accrued_since-mono_bounded (start_of escrow intent) (duration_of escrow intent) escrow.locked_fee
      now later h,
)
