-- ===== src/Pricing/Ceiling.antt =====
-- ceilBigDiv is the quotient rounded up, and grows with its numerator.
use falari.Prelude.{
  ℕ, zero, suc, ◌+◌, ◌*◌, ◌/◌, ◌%◌, ◌≤◌, ◌<◌, ◌≡◌, leb, Bool-cases, inl, inr, arith,
}
use native.Mathlib.Nat.{div-add-mod, div-le_of_le-mul, mul-le-mul_left}
use falari.Pricing.{ceil_big_div}

above : (q r d : ℕ) → r < d → q * d + r ≤ (q + 1) * d
above q r d small = grind arith

-- Rounding up covers the numerator.
pub ceil_big_div-covers : (n d : ℕ) → 0 < d → n ≤ ceil_big_div n d * d
unfolding ceil_big_div
ceil_big_div-covers n zero h = omega arith
ceil_big_div-covers n (suc d) h =
    let whole : n / suc d * suc d + n % suc d ≡ n = grind (arith, div-add-mod n (suc d)) in
    ground (arith, whole, above (n / suc d) (n % suc d) (suc d) (omega arith))

over : (q r d k : ℕ) → 0 < r → q * d + r ≤ k * d → q + 1 ≤ k
over q r d k pos h = elim (Bool-cases (leb k q)) [
  | inl below ↦ absurd (ground (arith, mul-le-mul_left {m = k} {n = q} d))
  | inr past ↦ ground arith
]

-- It is the least number that does.
pub ceil_big_div-least : (n d k : ℕ) → 0 < d → n ≤ k * d → ceil_big_div n d ≤ k
unfolding ceil_big_div
ceil_big_div-least n zero k pos h = omega arith
ceil_big_div-least n (suc d) k pos h =
    let whole : n / suc d * suc d + n % suc d ≡ n = grind (arith, div-add-mod n (suc d)) in
    let down : n / suc d ≤ k = div-le_of_le-mul (suc d) (omega arith) in
    ground (arith, whole, down, over (n / suc d) (n % suc d) (suc d) k)

same_zero : (a b : ℕ) → ceil_big_div a 0 ≤ ceil_big_div b 0
unfolding ceil_big_div
same_zero a b = omega arith

pub ceil_big_div_mono : (a b d : ℕ) → a ≤ b → ceil_big_div a d ≤ ceil_big_div b d
ceil_big_div_mono a b zero h = same_zero a b
ceil_big_div_mono a b (suc d) h =
    ceil_big_div-least a (suc d) (ceil_big_div b (suc d)) (omega arith)
      (omega (arith, ceil_big_div-covers b (suc d) (omega arith)))
