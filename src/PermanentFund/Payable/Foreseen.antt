-- ===== src/PermanentFund/Payable/Foreseen.antt =====
-- The subsidy to a permanent deal after its own payment, against the one foreseen before it.
use falari.Prelude.{
  ℕ, ◌<◌, String, false, ◌≡◌, refl, ◌||◌, ◌∙◌, inl, inr, ap, some, ltb, ◌==◌, if◌then◌else◌,
  Bool-cases, arith,
}
use falari.Dict.{lookup}
use falari.Dict.Laws.{lookup-insert_self}
use falari.Types.{Intent, PermanentStorageFund}
use falari.Env.{Env}
use falari.State.{State}
use falari.Escrow.Spending.{ensure-pools}
use falari.Escrow.{ensure_deal_escrow}
use falari.PermanentFund.{ensure_permanent_fund, spent_fund}
use falari.PermanentFund.Balance.{ensure-funds}
use falari.PermanentFund.Payouts.{spend_permanent_fund, fund_payment, subsidy_cap}
use falari.Vesting.{vest_mining_reward}
use falari.PermanentFund.Payable.{permanent_fund_subsidy_cap}
use falari.PermanentFund.Payable.Spent.{same_found}

module _ (env : Env) where
  ensure-params :
      (intent : Intent) (s : State) → (ensure_deal_escrow intent s).mining_params ≡ s.mining_params
  unfolding ensure_deal_escrow
  ensure-params intent s = ground arith

  -- A fund that has just been written is found as it is, where its time of creation is set.
  written_fund :
      (intent : Intent) (fund : PermanentStorageFund) (now : ℕ) (s : State)
      → lookup intent.intent_id s.permanent_storage_funds ≡ some fund
      → 0 < fund.created_at_unix
      → let found = ensure_permanent_fund intent now s in
        (found.closed ≡ fund.closed) × (found.created_at_unix ≡ fund.created_at_unix)
  unfolding ensure_permanent_fund
  written_fund intent fund now s found created = ground (arith, found)

  spent_found :
      (intent : Intent) (reward now : ℕ) (s : State)
      → let fund = ensure_permanent_fund intent now s in
        let paid = fund_payment env intent fund reward s in
        (reward == 0 || ltb 0 intent.duration || paid == 0) ≡ false
        → lookup
            (spend_permanent_fund env intent reward now s).1.intent_id
            (spend_permanent_fund env intent reward now s).0.permanent_storage_funds
          ≡ some (spent_fund paid now fund)
  unfolding spend_permanent_fund
  spent_found intent reward now s more =
      let fund = ensure_permanent_fund intent now s in
      let paid = fund_payment env intent fund reward s in
      rw (more, ensure-funds _ _)
        (lookup-insert_self intent.intent_id (spent_fund paid now fund) s.permanent_storage_funds)

  -- What the subsidy depends on is as it was before a payment out of a permanent fund.
  after_payment :
      (intent : Intent) (reward now : ℕ) (s : State)
      → 0 < intent.created_at
      → let (s', intent', paid) = spend_permanent_fund env intent reward now s in
        let fund = ensure_permanent_fund intent now s in
        let fund' = ensure_permanent_fund intent' now s' in
        (s'.mining_params ≡ s.mining_params)
        × (s'.reward_pools ≡ s.reward_pools)
        × (intent'.duration ≡ intent.duration)
        × (fund'.closed ≡ fund.closed)
        × (fund'.created_at_unix ≡ fund.created_at_unix)
  unfolding spend_permanent_fund
  after_payment intent reward now s created =
      let fund = ensure_permanent_fund intent now s in
      let paid = fund_payment env intent fund reward s in
      elim (Bool-cases (reward == 0 || ltb 0 intent.duration || paid == 0)) [
        | inl out ↦ rw out (refl, refl, refl, refl, refl)
        | inr more ↦
            (let written =
                written_fund (spend_permanent_fund env intent reward now s).1
                  (spent_fund paid now fund) now (spend_permanent_fund env intent reward now s).0
                  (spent_found intent reward now s more) (same_found env intent now s created).3 in
              (
                rw more (ensure-params _ _),
                rw more (ensure-pools _ _),
                rw more refl,
                written.0,
                written.1,
              ))
      ]

  abbrev pub vest_paid : String → String → ℕ → ℕ → State → State
  vest_paid source miner paid now s =
      if paid == 0 then s else vest_mining_reward env miner paid source now now s

  vest-same :
      (source miner : String) (paid now : ℕ) (s : State)
      → ((vest_paid source miner paid now s).mining_params ≡ s.mining_params)
        × ((vest_paid source miner paid now s).reward_pools ≡ s.reward_pools)
        × ((vest_paid source miner paid now s).permanent_storage_funds ≡ s.permanent_storage_funds)
  unfolding vest_mining_reward
  vest-same source miner paid now s = ground arith

  cap_agrees :
      (intent intent' : Intent) (shortfall now : ℕ) (s s' : State)
      → s'.mining_params ≡ s.mining_params
      → s'.reward_pools ≡ s.reward_pools
      → intent'.duration ≡ intent.duration
      → (ensure_permanent_fund intent' now s').closed ≡ (ensure_permanent_fund intent 0 s).closed
      → (ensure_permanent_fund intent' now s').created_at_unix
        ≡ (ensure_permanent_fund intent 0 s).created_at_unix
      → subsidy_cap intent' shortfall now s' ≡ permanent_fund_subsidy_cap intent shortfall now s
  unfolding subsidy_cap permanent_fund_subsidy_cap
  cap_agrees intent intent' shortfall now s s' params pools kind closed created =
      rw (closed, created, params, pools, kind) refl

  same_funds :
      (intent : Intent) (now : ℕ) (s s' : State)
      → s'.permanent_storage_funds ≡ s.permanent_storage_funds
      → ensure_permanent_fund intent now s' ≡ ensure_permanent_fund intent now s
  unfolding ensure_permanent_fund
  same_funds intent now s s' same = rw same refl

  -- The subsidy after the payment is the one that was foreseen before it.
  pub subsidy_foreseen :
      (source miner : String) (intent : Intent) (reward shortfall now : ℕ) (s : State)
      → 0 < intent.created_at
      → intent.duration ≡ 0
      → let (s1, intent', paid) = spend_permanent_fund env intent reward now s in
        subsidy_cap intent' shortfall now (vest_paid source miner paid now s1)
        ≡ permanent_fund_subsidy_cap intent shortfall now s
  subsidy_foreseen source miner intent reward shortfall now s created permanent =
      let s1 = (spend_permanent_fund env intent reward now s).0 in
      let intent' = (spend_permanent_fund env intent reward now s).1 in
      let paid = (spend_permanent_fund env intent reward now s).2 in
      let s2 = vest_paid source miner paid now s1 in
      let after = after_payment intent reward now s created in
      let vested = vest-same source miner paid now s1 in
      let same = same_found env intent now s created in
      let kept = same_funds intent' now s1 s2 vested.2 in
      cap_agrees intent intent' shortfall now s s2 (vested.0 ∙ after.0) (vested.1 ∙ after.1) after.2
        (ap (λ (f : PermanentStorageFund). f.closed) kept ∙ after.3 ∙ same.1)
        (ap (λ (f : PermanentStorageFund). f.created_at_unix) kept ∙ after.4 ∙ same.2)
