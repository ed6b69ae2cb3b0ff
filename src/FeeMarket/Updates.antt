-- ===== src/FeeMarket/Updates.antt =====
-- What an operator's update of the fee parameters keeps, and what a refused one leaves behind.
use falari.Prelude.{
  ℕ, ◌≤◌, ◌<◌, Bool, ◌≡◌, ◌≢◌, ◌⊎◌, inl, inr, Option, none, some, ◌==◌, Option-cases, Bool-cases,
  arith,
}
use falari.Types.{FeeMultipliers, FeeMarket}
use falari.FeeMarket.{
  SetFeeMarketRequest, FeeError, unless_failed, set_base_fee, set_target, set_rest, apply_field,
  apply_fee_multiplier_update, then_field, set_multipliers, set_fee_market, target_zero,
}

-- A multiplier that is not set, or one between a tenth and ten times.
abbrev pub InRange : ℕ → Type 0
InRange v = (v ≡ 0) ⊎ ((1000 ≤ v) × (v ≤ 100000))

pub record AllInRange (m : FeeMultipliers) : Type 0 where
  pub bridge_out : InRange m.bridge_out
  pub create_intent : InRange m.create_intent
  pub upload_nft_template : InRange m.upload_nft_template
  pub register_validator : InRange m.register_validator
  pub batch_commit : InRange m.batch_commit
  pub deploy_contract : InRange m.deploy_contract
  pub call_contract : InRange m.call_contract
  pub destroy_contract : InRange m.destroy_contract

pub record IsSound (m : FeeMarket) : Type 0 where
  pub base : 0 < m.base_fee
  pub target : 0 < m.target_block_txs
  pub multipliers : AllInRange m.multipliers

apply_field-InRange : (val field v : ℕ) → InRange field → apply_field val field ≡ some v → InRange v
unfolding apply_field
apply_field-InRange val field v h e = ground arith

-- One field after another: each writes a value in range, or ends the update.
then_field-AllInRange :
    (val field : ℕ) (dst : FeeMultipliers) (rest : ℕ → FeeMultipliers × Bool)
    → AllInRange dst
    → InRange field
    → ((v : ℕ) → InRange v → AllInRange (rest v).0)
    → AllInRange (then_field (apply_field val field) dst rest).0
then_field-AllInRange val field dst rest h old keep = elim (Option-cases (apply_field val field)) [
  | inl e ↦ rw (e, then_field) h
  | inr (v, e) ↦ rw (e, then_field) (keep v (apply_field-InRange val field v old e))
]

multiplier_update-AllInRange :
    (dst src : FeeMultipliers) → AllInRange dst → AllInRange (apply_fee_multiplier_update dst src).0
unfolding apply_fee_multiplier_update
multiplier_update-AllInRange dst src h =
    then_field-AllInRange src.bridge_out _ _ _ h h.bridge_out λ v1 r1.
      then_field-AllInRange src.create_intent _ _ _ (assumption) h.create_intent λ v2 r2.
        then_field-AllInRange src.upload_nft_template _ _ _ (assumption) h.upload_nft_template
          λ v3 r3.
            then_field-AllInRange src.register_validator _ _ _ (assumption) h.register_validator
              λ v4 r4.
                then_field-AllInRange src.batch_commit _ _ _ (assumption) h.batch_commit λ v5 r5.
                  then_field-AllInRange src.deploy_contract _ _ _ (assumption) h.deploy_contract
                    λ v6 r6.
                      then_field-AllInRange src.call_contract _ _ _ (assumption) h.call_contract
                        λ v7 r7.
                          then_field-AllInRange src.destroy_contract _ _ _ (assumption)
                            h.destroy_contract λ v8 r8. assumption

set_base_fee-IsSound : (fee : Option ℕ) (m : FeeMarket) → IsSound m → IsSound (set_base_fee fee m).0
unfolding set_base_fee
set_base_fee-IsSound none m h = h
set_base_fee-IsSound (some fee) m h = elim (Bool-cases (fee == 0)) [
  | inl e ↦ rw e h
  | inr e ↦ rw e (record { base = ground arith; target = h.target; multipliers = h.multipliers })
]

set_target-IsSound : (n : Option ℕ) (m : FeeMarket) → IsSound m → IsSound (set_target n m).0
unfolding set_target
set_target-IsSound none m h = h
set_target-IsSound (some n) m h = elim (Bool-cases (n == 0)) [
  | inl e ↦ rw e h
  | inr e ↦ rw e (record { base = h.base; target = ground arith; multipliers = h.multipliers })
]

set_multipliers-IsSound :
    (src : Option FeeMultipliers) (m : FeeMarket) → IsSound m → IsSound (set_multipliers src m).0
unfolding set_multipliers
set_multipliers-IsSound none m h = h
set_multipliers-IsSound (some src) m h = record {
  base = h.base;
  target = h.target;
  multipliers = multiplier_update-AllInRange m.multipliers src h.multipliers;
}

unless_failed-IsSound :
    (r : FeeMarket × Option FeeError) (rest : FeeMarket → FeeMarket × Option FeeError)
    → IsSound r.0
    → ((m : FeeMarket) → IsSound m → IsSound (rest m).0)
    → IsSound (unless_failed r rest).0
unless_failed-IsSound (m, none) rest h keep = keep m h
unless_failed-IsSound (m, some e) rest h keep = h

-- Whatever an operator sends, and also where the update is refused half way: the base fee and the
-- target stay positive and every multiplier stays unset or between 1000 and 100000 basis points.
pub set_fee_market-IsSound :
    (req : SetFeeMarketRequest) (market : FeeMarket)
    → IsSound market
    → IsSound (set_fee_market req market).0
unfolding set_fee_market
set_fee_market-IsSound req market h =
    unless_failed-IsSound (set_base_fee req.base_fee market) (set_rest req)
      (set_base_fee-IsSound req.base_fee market h)
      λ m1 h1.
        unless_failed-IsSound (set_target req.target_block_txs m1) (set_multipliers req.multipliers)
          (set_target-IsSound req.target_block_txs m1 h1) (set_multipliers-IsSound req.multipliers)

-- A refused update is not undone: with a positive base fee and then a zero target the answer is the
-- error for the target, and the market that later transactions are checked against has the new base
-- fee all the same.
pub set_fee_market_not_atomic :
    (fee : ℕ) (multipliers : Option FeeMultipliers) (market : FeeMarket)
    → 0 < fee
    → fee ≢ market.base_fee
    → let after =
        set_fee_market
          (record { base_fee = some fee; target_block_txs = some 0; multipliers = multipliers })
          market in
      (after.1 ≡ some target_zero) × (after.0.base_fee ≡ fee) × (after.0 ≢ market)
unfolding set_fee_market
set_fee_market_not_atomic fee multipliers market pos differs = ground arith
