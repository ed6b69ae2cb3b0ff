-- ===== src/PermanentFund/Payable/Paid.antt =====
-- What was found to be payable for a challenge is what is paid.
use falari.Prelude.{
  ℕ, ◌+◌, ◌-◌, ◌≤◌, ◌<◌, String, false, ◌≡◌, refl, ◌∙◌, inl, inr, ap, sym, some, leb, ◌==◌,
  if◌then◌else◌, Bool-cases, arith,
}
use falari.Arith.{u64_mod}
use falari.Arith.Bounds.{saturating_add_exact}
use falari.Dict.{lookup}
use falari.Types.{Intent}
use falari.Env.{Env}
use falari.State.{State}
use falari.Escrow.{spend_finite_storage_fee, least, is_permanent_intent}
use falari.PermanentFund.{ensure_permanent_fund}
use falari.PermanentFund.Payouts.{
  spend_from_deal, spend_permanent_fund, subsidy_cap, pay_permanent_fund_subsidy,
}
use falari.PermanentFund.Payable.{
  permanent_fund_subsidy_cap, fee_available, payable_of, payable_storage_reward,
}
use falari.PermanentFund.Payable.Spent.{deal_paid}
use falari.PermanentFund.Payable.Foreseen.{vest_paid, subsidy_foreseen}

module _ (env : Env) where
  cap_le :
      (intent : Intent) (shortfall now : ℕ) (s : State)
      → permanent_fund_subsidy_cap intent shortfall now s ≤ shortfall
  unfolding permanent_fund_subsidy_cap
  cap_le intent shortfall now s = ground arith

  -- The reward that is payable, without its guards.
  payable_of-lem :
      (intent : Intent) (reward now : ℕ) (s : State)
      → reward < u64_mod
      → let paid = least reward (fee_available env intent now s) in
        (payable_of env intent reward now s).1 ≡ (
          if is_permanent_intent intent
          then paid + permanent_fund_subsidy_cap intent (reward - paid) now s
          else paid)
  unfolding payable_of
  payable_of-lem intent reward now s small =
      let available = fee_available env intent now s in
      let cap = permanent_fund_subsidy_cap intent (reward - available) now s in
      let paid = least reward available in
      let subsidy = λ (x : ℕ). permanent_fund_subsidy_cap intent x now s in
      let missing = cap_le intent (reward - available) now s in
      elim (Bool-cases (leb reward available)) [
        | inl fits ↦
            (let all : paid ≡ reward = ground arith in
              let nothing : reward - paid ≡ 0 = omega (arith, all) in
              ground (arith, fits, all, ap subsidy nothing, cap_le intent 0 now s))
        | inr short ↦
            (let all : paid ≡ available = ground arith in
              let rest : reward - paid ≡ reward - available = omega (arith, all) in
              ground
                (arith, short, all, ap subsidy rest, missing, saturating_add_exact available cap))
      ]

  found_payable :
      (intent : Intent) (reward now : ℕ) (s : State)
      → lookup intent.intent_id s.intents ≡ some intent
      → payable_storage_reward env intent.intent_id reward now s
        ≡ payable_of env intent reward now s
  unfolding payable_storage_reward
  found_payable intent reward now s found = rw (found, payable_storage_reward) refl

  finite_kind :
      (intent : Intent) (reward now : ℕ) (s : State)
      → 0 < intent.duration
      → (spend_from_deal env intent reward now s).1.duration ≡ intent.duration
  unfolding spend_from_deal spend_finite_storage_fee
  finite_kind intent reward now s finite = ground arith

  no_subsidy :
      (intent : Intent) (shortfall now : ℕ) (s : State)
      → 0 < intent.duration
      → subsidy_cap intent shortfall now s ≡ 0
  unfolding subsidy_cap
  no_subsidy intent shortfall now s finite = ground arith

  permanent_deal :
      (intent : Intent) (reward now : ℕ) (s : State)
      → intent.duration ≡ 0
      → spend_from_deal env intent reward now s ≡ spend_permanent_fund env intent reward now s
  unfolding spend_from_deal
  permanent_deal intent reward now s permanent = rw permanent refl

  subsidy-eq :
      (intent : Intent) (shortfall now : ℕ) (s : State)
      → (pay_permanent_fund_subsidy intent shortfall now s).1 ≡ subsidy_cap intent shortfall now s
  unfolding pay_permanent_fund_subsidy
  subsidy-eq intent shortfall now s = ground arith

  -- The reward that is found to be payable for a challenge is exactly what is then paid: what the
  -- deal itself pays, out of its permanent fund or out of what has accrued, and the subsidy of the
  -- platform to a permanent deal. It holds for a deal of the state with a time of creation, whose
  -- fund is not closed, and a reward that is a uint64.
  pub payable_is_paid :
      (source miner : String) (intent : Intent) (reward now : ℕ) (s : State)
      → lookup intent.intent_id s.intents ≡ some intent
      → 0 < intent.created_at
      → (ensure_permanent_fund intent now s).closed ≡ false
      → reward < u64_mod
      → let (s1, intent', paid) = spend_from_deal env intent reward now s in
        let s2 = vest_paid env source miner paid now s1 in
        paid + (pay_permanent_fund_subsidy intent' (reward - paid) now s2).1
        ≡ (payable_storage_reward env intent.intent_id reward now s).1
  payable_is_paid source miner intent reward now s found created open_fund small =
      let worth =
        ap (λ (r : State × ℕ). r.1) (found_payable intent reward now s found)
        ∙ payable_of-lem intent reward now s small in
      let spent = deal_paid env intent reward now s created open_fund in
      let paid = (spend_from_deal env intent reward now s).2 in
      elim (Bool-cases (intent.duration == 0)) [
        | inl permanent ↦
            (let kind : intent.duration ≡ 0 = ground arith in
              let dealt = permanent_deal intent reward now s kind in
              let r = spend_permanent_fund env intent reward now s in
              let total = λ (r : State × Intent × ℕ).
                r.2
                + (pay_permanent_fund_subsidy r.1 (reward - r.2) now
                    (vest_paid env source miner r.2 now r.0)).1 in
              let subsidy =
                subsidy-eq r.1 (reward - r.2) now (vest_paid env source miner r.2 now r.0)
                ∙ subsidy_foreseen env source miner intent reward (reward - r.2) now s created
                    kind in
              let p : r.2 ≡ least reward (fee_available env intent now s) =
                ap (λ (q : State × Intent × ℕ). q.2) (sym dealt) ∙ spent in
              let w : (payable_storage_reward env intent.intent_id reward now s).1
                  ≡ least reward (fee_available env intent now s)
                    + permanent_fund_subsidy_cap intent
                        (reward - least reward (fee_available env intent now s)) now s =
                worth ∙ rw permanent refl in
              ap total dealt
              ∙ omega (
                arith,
                w,
                subsidy,
                p,
                ap (λ (x : ℕ). permanent_fund_subsidy_cap intent (reward - x) now s) p,
              ))
        | inr finite ↦
            (let timed : 0 < intent.duration = ground arith in
              let s1 = (spend_from_deal env intent reward now s).0 in
              let intent' = (spend_from_deal env intent reward now s).1 in
              let s2 = vest_paid env source miner paid now s1 in
              let kind = finite_kind intent reward now s timed in
              let nothing : (pay_permanent_fund_subsidy intent' (reward - paid) now s2).1 ≡ 0 =
                subsidy-eq intent' (reward - paid) now s2
                ∙ no_subsidy intent' (reward - paid) now s2 (omega (arith, kind)) in
              let w : (payable_storage_reward env intent.intent_id reward now s).1
                  ≡ least reward (fee_available env intent now s) =
                worth ∙ rw finite refl in
              omega (arith, w, nothing, spent))
      ]
