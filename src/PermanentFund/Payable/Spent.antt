-- ===== src/PermanentFund/Payable/Spent.antt =====
-- What a deal pays of a reward, against what it was found to have available.
use falari.Prelude.{
  ℕ, zero, suc, ◌<◌, false, true, ◌≡◌, ◌∙◌, inl, inr, ap, Option-cases, ◌==◌, Bool-cases, arith,
}
use falari.Dict.{lookup}
use falari.Types.{Intent}
use falari.Env.{Env, normalize_address}
use falari.State.{State}
use falari.Accounts.{account_at, account_locked}
use falari.Escrow.Spending.{ensure-accounts}
use falari.Escrow.{
  ensure_deal_escrow, spend_finite_storage_fee, finite_payment, least, first_non_zero,
}
use falari.PermanentFund.{ensure_permanent_fund}
use falari.PermanentFund.Payouts.{spend_from_deal, spend_permanent_fund, fund_payment}
use falari.PermanentFund.Payable.{fee_available}

module _ (env : Env) where
  ensured-locked :
      (intent : Intent) (s : State)
      → account_locked env (ensure_deal_escrow intent s) intent.user
        ≡ account_locked env s intent.user
  unfolding account_locked
  ensured-locked intent s =
      ap (λ accounts. account_at accounts (normalize_address env intent.user))
        (ensure-accounts intent s)

  finite_paid :
      (intent : Intent) (reward now : ℕ) (s : State)
      → 0 < intent.duration
      → 0 < reward
      → (spend_from_deal env intent reward now s).2 ≡ least reward (fee_available env intent now s)
  unfolding spend_from_deal spend_finite_storage_fee finite_payment fee_available
  finite_paid intent reward now s finite some_reward =
      let kind : (intent.duration == 0) ≡ false = ground arith in
      let asked : (reward == 0) ≡ false = ground arith in
      rw (kind, asked, ensured-locked intent s) (ground arith)

  -- The fund as it was found, at either time.
  pub same_found :
      (intent : Intent) (now : ℕ) (s : State)
      → 0 < intent.created_at
      → let fund = ensure_permanent_fund intent now s in
        let bare = ensure_permanent_fund intent 0 s in
        (fund.balance ≡ bare.balance)
        × (fund.closed ≡ bare.closed)
        × (fund.created_at_unix ≡ bare.created_at_unix)
        × (0 < fund.created_at_unix)
  unfolding ensure_permanent_fund first_non_zero
  same_found intent now s created =
      elim (Option-cases (lookup intent.intent_id s.permanent_storage_funds)) [
        | inl missing ↦ ground (arith, missing)
        | inr (fund, found) ↦ ground (arith, found)
      ]

  permanent_paid :
      (intent : Intent) (reward now : ℕ) (s : State)
      → 0 < intent.created_at
      → intent.duration ≡ 0
      → (ensure_permanent_fund intent now s).closed ≡ false
      → 0 < reward
      → (spend_from_deal env intent reward now s).2 ≡ least reward (fee_available env intent now s)
  unfolding spend_from_deal spend_permanent_fund fund_payment fee_available
  permanent_paid intent reward now s created permanent open_fund some_reward =
      let kind : (intent.duration == 0) ≡ true = ground arith in
      let asked : (reward == 0) ≡ false = ground arith in
      let same = (same_found intent now s created).0 in
      rw (kind, asked, open_fund) (ground (arith, same))

  zero_paid : (intent : Intent) (now : ℕ) (s : State) → (spend_from_deal env intent 0 now s).2 ≡ 0
  unfolding spend_from_deal spend_permanent_fund spend_finite_storage_fee
  zero_paid intent now s = ground arith

  pub deal_paid :
      (intent : Intent) (reward now : ℕ) (s : State)
      → 0 < intent.created_at
      → (ensure_permanent_fund intent now s).closed ≡ false
      → (spend_from_deal env intent reward now s).2 ≡ least reward (fee_available env intent now s)
  deal_paid intent zero now s created open_fund = zero_paid intent now s ∙ ground arith
  deal_paid intent (suc n) now s created open_fund = elim (Bool-cases (intent.duration == 0)) [
    | inl permanent ↦
        permanent_paid intent (suc n) now s created (ground arith) open_fund (omega arith)
    | inr finite ↦ finite_paid intent (suc n) now s (ground arith) (omega arith)
  ]
