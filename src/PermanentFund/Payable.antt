-- ===== src/PermanentFund/Payable.antt =====
-- The reward that a challenge can be paid (payableStorageRewardLocked of
-- internal/chain/storage_payments.go); it fits in the deal and in the platform's fund.
pub mod Spent
pub mod Foreseen
pub mod Paid
use falari.Prelude.{
  ℕ, zero, suc, ◌+◌, ◌-◌, ◌≤◌, ◌<◌, String, Bool, false, true, ◌≡◌, refl, ◌≢◌, ◌||◌, ◌&&◌, ◌∙◌, inl,
  inr, ap, sym, none, some, Option-cases, str_eq, eq_iff, ltb, leb, ◌==◌, if◌then◌else◌, Bool-cases,
  arith,
}
use falari.Arith.{u64_mod, saturating_add}
use falari.Arith.Bounds.{saturating_add_exact}
use falari.Dict.{lookup}
use falari.Dict.Laws.{lookup-insert_self}
use falari.Types.{Intent, Pools, PermanentStorageFund}
use falari.Env.{Env, normalize_address}
use falari.State.{State}
use falari.Accounts.{account_at, account_locked}
use falari.Escrow.Spending.{ensure-accounts, ensure-pools}
use falari.Escrow.{
  ensure_deal_escrow, deal_escrow_locked, spend_finite_storage_fee, finite_payment, escrow_at,
  least, is_permanent_intent, remaining_intent_escrow, first_non_zero, finite_deal_escrow_available,
}
use falari.PermanentFund.{ensure_permanent_fund, spent_fund}
use falari.PermanentFund.Balance.{ensure-funds}
use falari.PermanentFund.Payouts.{
  spend_from_deal, spend_permanent_fund, fund_payment, subsidy_cap, pay_permanent_fund_subsidy,
}
use falari.Vesting.{vest_mining_reward}

-- permanentFundSubsidyCapLocked, which completes the fund at time 0.
unfoldable pub permanent_fund_subsidy_cap : Intent → ℕ → ℕ → State → ℕ
permanent_fund_subsidy_cap intent shortfall now s =
    let takeover = s.mining_params.permanent_fund_takeover_seconds in
    let fund = ensure_permanent_fund intent 0 s in
    if shortfall == 0 || ltb 0 intent.duration || takeover == 0
    then 0
    else if fund.closed || ltb now (fund.created_at_unix + takeover)
    then 0
    else least shortfall s.reward_pools.permanent_fund_remaining

module _ (env : Env) where
  -- What the deal itself can give, of a permanent fund or of what has accrued.
  unfoldable pub fee_available : Intent → ℕ → State → ℕ
  fee_available intent now s =
      let escrow = (deal_escrow_locked intent s).1 in
      least
        (if is_permanent_intent intent
          then (ensure_permanent_fund intent 0 s).balance
          else least (finite_deal_escrow_available escrow intent now)
              (remaining_intent_escrow intent))
        (account_locked env s intent.user).locked_storage

  -- The same for a deal that has been found.
  unfoldable pub payable_of : Intent → ℕ → ℕ → State → State × ℕ
  payable_of intent reward now s =
      let available = fee_available intent now s in
      let subsidy = permanent_fund_subsidy_cap intent (reward - available) now s in
      let covered = saturating_add available subsidy in
      let s' = if is_permanent_intent intent then s else ensure_deal_escrow intent s in
      if reward == 0
      then (s, 0)
      else if leb reward available
      then (s', reward)
      else if is_permanent_intent intent
      then (s', if ltb covered reward then covered else reward)
      else (s', available)

  -- The escrow of a finite deal is brought up to date on the way.
  unfoldable pub payable_storage_reward : String → ℕ → ℕ → State → State × ℕ
  payable_storage_reward intent_id reward now s = elim (lookup intent_id s.intents) [
    | none ↦ (s, 0)
    | some intent ↦ payable_of intent reward now s
  ]
