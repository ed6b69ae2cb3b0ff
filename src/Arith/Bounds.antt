-- ===== src/Arith/Bounds.antt =====
-- When the uint64 helpers are exact, and what they give where the exact value does not fit.
use native.Mathlib.Nat.{div-lt_iff_lt-mul}
use falari.Prelude.{◌↔◌, ℕ, ◌+◌, ◌*◌, ◌/◌, ◌≤◌, ◌<◌, ◌≡◌, ok, err, ltb, leb, if◌then◌else◌, arith}
use falari.Arith.{
  u64_mod, max_u64, overflow, saturating_add, safe_add_u64, transfer_total_cost, mul_div_uint64,
}

-- On uint64 arguments saturatingAdd is the sum where it fits in 64 bits, and math.MaxUint64
-- otherwise.
pub saturating_add-eq-capped :
    (a b : ℕ)
    → a < u64_mod
    → b < u64_mod
    → saturating_add a b ≡ (if leb (a + b) max_u64 then a + b else max_u64)
unfolding saturating_add
saturating_add-eq-capped a b ha hb = ground arith

pub saturating_add_exact : (a b : ℕ) → a + b < u64_mod → saturating_add a b ≡ a + b
unfolding saturating_add
saturating_add_exact a b h = ground arith

pub saturating_add-lt : (a b : ℕ) → saturating_add a b < u64_mod
unfolding saturating_add
saturating_add-lt a b = ground arith

pub le-saturating_add : (a b : ℕ) → a < u64_mod → a ≤ saturating_add a b
unfolding saturating_add
le-saturating_add a b h = ground arith

pub saturating_add-le : (a b : ℕ) → a < u64_mod → saturating_add a b ≤ a + b
unfolding saturating_add
saturating_add-le a b h = ground arith

-- The two overflow checks of the chain, transferTotalCost (compare the wrapped sum) and safeAddU64
-- (compare with the room left), agree on all uint64 arguments: both return the exact sum if it fits
-- in 64 bits, and both report an overflow if it does not.
pub overflow_checks_agree :
    (a b : ℕ)
    → a < u64_mod
    → b < u64_mod
    → (transfer_total_cost a b ≡ (if ltb (a + b) u64_mod then ok (a + b) else err overflow))
      × (safe_add_u64 a b ≡ transfer_total_cost a b)
unfolding transfer_total_cost safe_add_u64
overflow_checks_agree a b ha hb = ground arith

pub safe_add_u64-eq-ok :
    (a b c : ℕ)
    → a < u64_mod
    → b < u64_mod
    → safe_add_u64 a b ≡ ok c
    → (c ≡ a + b) × (a + b < u64_mod)
unfolding safe_add_u64
safe_add_u64-eq-ok a b c ha hb h = ground arith

pub transfer_total_cost-eq-ok :
    (a b c : ℕ)
    → a < u64_mod
    → b < u64_mod
    → transfer_total_cost a b ≡ ok c
    → (c ≡ a + b) × (a + b < u64_mod)
unfolding transfer_total_cost
transfer_total_cost-eq-ok a b c ha hb h = ground arith

div_lt_iff : (p m d : ℕ) → 0 < d → ltb (p / d) m ≡ ltb p (m * d)
div_lt_iff p m d h =
    let e : (p / d < m) ↔ (p < m * d) = div-lt_iff_lt-mul h in ground (arith, e.0, e.1)

-- mulDivUint64 is the floor of a*b*c/d wherever that fits in 64 bits, whatever the size of the
-- product; where it does not fit the result is math.MaxUint64.
pub mul_div_uint64-eq-floor :
    (a b c d : ℕ)
    → 0 < d
    → mul_div_uint64 a b c d ≡ (if ltb (a * b * c) (u64_mod * d) then a * b * c / d else max_u64)
unfolding mul_div_uint64
mul_div_uint64-eq-floor a b c d h = ground (arith, div_lt_iff (a * b * c) u64_mod d h)

pub mul_div_uint64-lt : (a b c d : ℕ) → mul_div_uint64 a b c d < u64_mod
unfolding mul_div_uint64
mul_div_uint64-lt a b c d = ground arith
