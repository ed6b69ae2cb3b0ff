-- ===== src/Witness/Numbers.antt =====
-- Examples for the uint64 helpers, the quorum, addresses and the fee market.
use falari.Prelude.{◌+◌, ◌*◌, ◌/◌, ◌≤◌, ◌<◌, ◌≡◌, ◌⊎◌, refl, inl, inr, [], ◌∷◌, arith}
use falari.Arith.{bft_threshold}
use falari.Arith.Quorum.{bft_threshold_intersection}
use falari.Types.{FeeMarket}
use falari.FeeMarket.{default_fee_market, default_base_fee, max_base_fee, adjust_fee_market}
use falari.FeeMarket.Adjustment.{
  adjust_fee_market_bounds, adjust_blocks, quiet_blocks_reach_default,
}
use falari.FeeMarket.Updates.{IsSound}

bft_threshold_intersection_example : (0 < bft_threshold 10) × (bft_threshold 10 ≤ 10) × (10 < 3 * 4)
unfolding bft_threshold
bft_threshold_intersection_example =
    bft_threshold_intersection 10 7 7 4 (omega arith) (omega arith) (omega arith) (omega arith)
      (omega arith)

abbrev congested : FeeMarket
congested = record default_fee_market { base_fee = 105_000_000 }

adjust_fee_market_bounds_example :
    let after = (adjust_fee_market 12 3 congested).base_fee in
    (0 < after)
    × (after ≤ max_base_fee)
    × ((after ≤ 105_000_000 + 105_000_000 / 8) ⊎ (after ≤ 105_000_000 + 1))
    × ((105_000_000 ≤ after + 105_000_000 / 8) ⊎ (105_000_000 ≤ after + 1))
    × ((105_000_000 ≤ after) ⊎ (default_base_fee ≤ after))
adjust_fee_market_bounds_example =
    adjust_fee_market_bounds 12 3 congested (omega arith) (omega arith)

quiet_blocks_reach_default_example :
    (adjust_blocks ((3, 1) ∷ (0, 2) ∷ []) congested).base_fee ≡ default_base_fee
quiet_blocks_reach_default_example =
    quiet_blocks_reach_default ((3, 1) ∷ (0, 2) ∷ []) congested (omega arith)
      (omega arith, (omega arith, tt)) (omega arith)

congested-IsSound : IsSound congested
congested-IsSound = record {
  base = omega arith;
  target = omega arith;
  multipliers = record {
    bridge_out = inr (omega arith, omega arith);
    create_intent = inr (omega arith, omega arith);
    upload_nft_template = inr (omega arith, omega arith);
    register_validator = inr (omega arith, omega arith);
    batch_commit = inr (omega arith, omega arith);
    deploy_contract = inl refl;
    call_contract = inl refl;
    destroy_contract = inl refl;
  };
}
