-- ===== src/Arith.antt =====
-- uint64 arithmetic of internal/chain: saturatingAdd (storage_pricing.go), mulDivUint64
-- (token_release.go), safeAddU64 (bridge.go), transferTotalCost (fee_market.go) and the BFT quorum
-- bftThreshold (block.go). A uint64 is a number below 2^64, and its wrap-around is written out.
pub mod Bounds
pub mod Quorum
use falari.Prelude.{ℕ, ◌+◌, ◌-◌, ◌*◌, ◌/◌, ◌%◌, ◌^◌, Result, ok, err, ltb, leb, ◌==◌, if◌then◌else◌}

abbrev pub u64_mod : ℕ
u64_mod = 2 ^ 64

-- math.MaxUint64
abbrev pub max_u64 : ℕ
max_u64 = 2 ^ 64 - 1

-- `a + b` on uint64
abbrev pub add64 : ℕ → ℕ → ℕ
add64 a b = (a + b) % u64_mod

-- `a * b` on uint64
abbrev pub mul64 : ℕ → ℕ → ℕ
mul64 a b = (a * b) % u64_mod

pub data ArithError : Type 0 where
  overflow : ArithError

unfoldable pub saturating_add : ℕ → ℕ → ℕ
saturating_add left right = if ltb (max_u64 - left) right then max_u64 else add64 left right

unfoldable pub safe_add_u64 : ℕ → ℕ → Result ArithError ℕ
safe_add_u64 a b = if ltb (max_u64 - b) a then err overflow else ok (add64 a b)

unfoldable pub transfer_total_cost : ℕ → ℕ → Result ArithError ℕ
transfer_total_cost amount fee =
    let total = add64 amount fee in if ltb total amount then err overflow else ok total

-- `big.Int` holds the product, so only the quotient is cut to 64 bits.
unfoldable pub mul_div_uint64 : ℕ → ℕ → ℕ → ℕ → ℕ
mul_div_uint64 a b c denominator =
    if denominator == 0
    then 0
    else (let n = a * b * c / denominator in if ltb max_u64 n then max_u64 else n)

unfoldable pub bft_threshold : ℕ → ℕ
bft_threshold total_power =
    if total_power == 0
    then 0
    else (let p = total_power * 2 / 3 + 1 in if ltb max_u64 p then max_u64 else p)
