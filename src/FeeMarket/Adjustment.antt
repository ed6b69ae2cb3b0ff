-- ===== src/FeeMarket/Adjustment.antt =====
-- How the base fee moves from block to block.
use falari.Prelude.{ℕ, ◌+◌, ◌*◌, ◌/◌, ◌≤◌, ◌<◌, ◌≡◌, ◌⊎◌, List, [], ◌∷◌, All, length, arith}
use falari.Types.{FeeMarket}
use falari.FeeMarket.{default_base_fee, max_base_fee, adjust_fee_market}

-- A base fee that is set and at most the ceiling stays so after any block, is never moved below
-- both its old value and the default, and moves by at most an eighth of itself, or by one where an
-- eighth is nothing.
pub adjust_fee_market_bounds :
    (tx_count height : ℕ) (market : FeeMarket)
    → 0 < market.base_fee
    → market.base_fee ≤ max_base_fee
    → let after = (adjust_fee_market tx_count height market).base_fee in
      (0 < after)
      × (after ≤ max_base_fee)
      × ((after ≤ market.base_fee + market.base_fee / 8) ⊎ (after ≤ market.base_fee + 1))
      × ((market.base_fee ≤ after + market.base_fee / 8) ⊎ (market.base_fee ≤ after + 1))
      × ((market.base_fee ≤ after) ⊎ (default_base_fee ≤ after))
unfolding adjust_fee_market
adjust_fee_market_bounds tx_count height market pos capped = ground arith

-- A stretch of blocks, each by its transaction count and height.
pub adjust_blocks : List (ℕ × ℕ) → FeeMarket → FeeMarket
adjust_blocks [] market = market
adjust_blocks ((tx_count, height) ∷ rest) market =
    adjust_blocks rest (adjust_fee_market tx_count height market)

-- A block with fewer transactions than the target.
abbrev pub IsQuiet : ℕ → ℕ × ℕ → Type 0
IsQuiet target (tx_count, _) = tx_count < target

-- One quiet block lowers a base fee above the default by an eighth of the default at least, or
-- takes it to the default.
quiet_step :
    (tx_count height : ℕ) (market : FeeMarket)
    → default_base_fee ≤ market.base_fee
    → tx_count < market.target_block_txs
    → let after = adjust_fee_market tx_count height market in
      (default_base_fee ≤ after.base_fee)
      × (after.target_block_txs ≡ market.target_block_txs)
      × ((after.base_fee ≡ default_base_fee) ⊎ (after.base_fee + 12_500_000 ≤ market.base_fee))
unfolding adjust_fee_market
quiet_step tx_count height market above quiet = ground arith

-- Congestion pricing wears off: from a base fee at or above the default, a stretch of quiet blocks
-- brings it back to exactly the default, once there is one block for every 12,500,000 units above
-- the default (so 80,000 blocks are enough from the ceiling).
pub quiet_blocks_reach_default :
    (blocks : List (ℕ × ℕ)) (market : FeeMarket)
    → default_base_fee ≤ market.base_fee
    → All (IsQuiet market.target_block_txs) blocks
    → market.base_fee ≤ default_base_fee + length blocks * 12_500_000
    → (adjust_blocks blocks market).base_fee ≡ default_base_fee
unfolding adjust_blocks
quiet_blocks_reach_default [] market above quiet near = omega arith
quiet_blocks_reach_default ((tx_count, height) ∷ rest) market above (quiet, later) near =
    let after = adjust_fee_market tx_count height market in
    let (above', target, lower) = quiet_step tx_count height market above quiet in
    quiet_blocks_reach_default rest after above' (rw target later) (omega arith)
