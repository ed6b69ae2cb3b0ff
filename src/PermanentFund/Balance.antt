-- ===== src/PermanentFund/Balance.antt =====
-- The balance of a permanent fund over its life: payouts, top-ups and the burn at its end.
use falari.Prelude.{
  ℕ, ◌+◌, ◌≤◌, ◌<◌, String, true, ◌≡◌, refl, ◌||◌, ◌∙◌, inl, inr, ap, some, Option-cases, str_eq,
  ltb, ◌==◌, Bool-cases, arith,
}
use falari.Arith.{u64_mod, saturating_add}
use falari.Arith.Bounds.{saturating_add_exact}
use falari.Dict.{Dict, lookup, insert}
use falari.Dict.Laws.{lookup-insert}
use falari.Types.{Intent, PermanentStorageFund}
use falari.Env.{Env}
use falari.State.{State}
use falari.Accounts.{account_locked, consume_account_nonce}
use falari.Escrow.{ensure_deal_escrow, add_deal_escrow_funds, least}
use falari.Escrow.Spending.{IsCovered, remaining-room}
use falari.PermanentFund.{
  new_fund, ensure_permanent_fund, spent_fund, topped_fund, topup_writes, TopupRequest,
}
use falari.PermanentFund.Payouts.{fund_payment, spend_permanent_fund, close_permanent_fund}

-- A fund has paid out, burned and kept no more than was contributed to it.
abbrev pub IsFunded : PermanentStorageFund → Type 0
IsFunded fund =
    (fund.balance + fund.paid + fund.burned ≤ fund.contributed) × (fund.contributed < u64_mod)

abbrev pub AllFunded : Dict PermanentStorageFund → Type 0
AllFunded funds =
    (id : String) (fund : PermanentStorageFund) → lookup id funds ≡ some fund → IsFunded fund

AllFunded-insert :
    (id : String) (fund : PermanentStorageFund) (funds : Dict PermanentStorageFund)
    → IsFunded fund
    → AllFunded funds
    → AllFunded (insert id fund funds)
AllFunded-insert id fund funds new all j other found = elim (Bool-cases (str_eq id j)) [
  | inl same ↦ ground (arith, same, lookup-insert id j fund funds)
  | inr differs ↦ all j other (ground (arith, differs, lookup-insert id j fund funds))
]

new-IsFunded : (intent : Intent) (now : ℕ) → IsCovered intent → IsFunded (new_fund intent now)
new-IsFunded intent now covered = omega (arith, remaining-room intent covered)

ensure-IsFunded :
    (intent : Intent) (now : ℕ) (s : State)
    → IsCovered intent
    → AllFunded s.permanent_storage_funds
    → IsFunded (ensure_permanent_fund intent now s)
unfolding ensure_permanent_fund
ensure-IsFunded intent now s covered all =
    elim (Option-cases (lookup intent.intent_id s.permanent_storage_funds)) [
      | inl missing ↦ rw missing (new-IsFunded intent now covered)
      | inr (fund, found) ↦ rw found (all intent.intent_id fund found)
    ]

pub ensure-funds :
    (intent : Intent) (s : State)
    → (ensure_deal_escrow intent s).permanent_storage_funds ≡ s.permanent_storage_funds
unfolding ensure_deal_escrow
ensure-funds intent s = ground arith

spent-IsFunded :
    (fund : PermanentStorageFund) (amount now : ℕ)
    → amount ≤ fund.balance
    → IsFunded fund
    → IsFunded (spent_fund amount now fund)
spent-IsFunded fund amount now enough funded =
    omega (arith, saturating_add_exact fund.paid amount (omega arith))

module _ (env : Env) where
  payment-le :
      (intent : Intent) (fund : PermanentStorageFund) (amount : ℕ) (s : State)
      → fund_payment env intent fund amount s ≤ fund.balance
  unfolding fund_payment
  payment-le intent fund amount s = ground arith

  spend-AllFunded :
      (intent : Intent) (amount now : ℕ) (s : State)
      → IsCovered intent
      → AllFunded s.permanent_storage_funds
      → AllFunded (spend_permanent_fund env intent amount now s).0.permanent_storage_funds
  unfolding spend_permanent_fund
  spend-AllFunded intent amount now s covered all =
      let fund = ensure_permanent_fund intent now s in
      let paid = fund_payment env intent fund amount s in
      elim (Bool-cases (amount == 0 || ltb 0 intent.duration || paid == 0)) [
        | inl out ↦ rw out all
        | inr more ↦
            rw (more, ensure-funds _ _)
              (AllFunded-insert intent.intent_id (spent_fund paid now fund)
                s.permanent_storage_funds
                (spent-IsFunded fund paid now (payment-le intent fund amount s)
                  (ensure-IsFunded intent now s covered all))
                all)
      ]

  close-AllFunded :
      (intent : Intent) (reason : String) (now : ℕ) (s : State)
      → IsCovered intent
      → AllFunded s.permanent_storage_funds
      → AllFunded (close_permanent_fund env intent reason now s).0.permanent_storage_funds
  unfolding close_permanent_fund
  close-AllFunded intent reason now s covered all =
      let fund = ensure_permanent_fund intent now s in
      let remaining = least fund.balance (account_locked env s intent.user).locked_storage in
      let some_funded = ensure-IsFunded intent now s covered all in
      let closed : PermanentStorageFund = record fund {
        balance = 0;
        burned = saturating_add fund.burned remaining;
        closed = true;
        closed_reason = reason;
        closed_at_unix = now;
        updated_at_unix = now;
      } in
      let small : remaining ≤ fund.balance = ground arith in
      let burned_exact = saturating_add_exact fund.burned remaining (omega arith) in
      let funded : IsFunded closed = omega arith in
      elim (Bool-cases (ltb 0 intent.duration || fund.closed)) [
        | inl out ↦ rw out all
        | inr open_fund ↦ elim (Bool-cases (fund.balance == 0)) [
          | inl empty ↦
              rw (open_fund, empty)
                (AllFunded-insert intent.intent_id closed s.permanent_storage_funds funded all)
          | inr full ↦
              rw (open_fund, full)
                (AllFunded-insert intent.intent_id closed s.permanent_storage_funds funded all)
        ]
      ]

  add-funds :
      (intent : Intent) (amount now : ℕ) (s : State)
      → (add_deal_escrow_funds intent amount now s).permanent_storage_funds
        ≡ s.permanent_storage_funds
  unfolding add_deal_escrow_funds
  add-funds intent amount now s = ground (arith, ensure-funds intent s)

  nonce-funds :
      (address : String) (s : State)
      → (consume_account_nonce env address s).permanent_storage_funds ≡ s.permanent_storage_funds
  unfolding consume_account_nonce
  nonce-funds address s = refl

  topup_writes-funds :
      (req : TopupRequest) (intent : Intent) (fund : PermanentStorageFund) (now : ℕ) (s : State)
      → (topup_writes env req intent fund now s).permanent_storage_funds
        ≡ insert intent.intent_id fund s.permanent_storage_funds
  unfolding topup_writes
  topup_writes-funds req intent fund now s =
      add-funds _ req.amount now _ ∙ ap (insert intent.intent_id fund) (nonce-funds req.user s)

  topped-IsFunded :
      (fund : PermanentStorageFund) (amount now : ℕ)
      → fund.contributed + amount < u64_mod
      → IsFunded fund
      → IsFunded (topped_fund amount now fund)
  topped-IsFunded fund amount now fits funded = omega (
    arith,
    saturating_add_exact fund.balance amount (omega arith),
    saturating_add_exact fund.contributed amount fits,
  )

  topup-AllFunded :
      (req : TopupRequest) (intent : Intent) (now : ℕ) (s : State)
      → IsCovered intent
      → (ensure_permanent_fund intent now s).contributed + req.amount < u64_mod
      → AllFunded s.permanent_storage_funds
      → AllFunded
          (topup_writes env req intent
            (topped_fund req.amount now (ensure_permanent_fund intent now s))
            now
            s).permanent_storage_funds
  topup-AllFunded req intent now s covered fits all =
      let fund = ensure_permanent_fund intent now s in
      rw (topup_writes-funds req intent (topped_fund req.amount now fund) now s) (
        AllFunded-insert intent.intent_id (topped_fund req.amount now fund)
          s.permanent_storage_funds
          (topped-IsFunded fund req.amount now fits (ensure-IsFunded intent now s covered all)) all)

  -- One step in the life of the funds, with what the deal it concerns must satisfy.
  pub data FundStep : State → State → Type 0 where
    spend :
        (intent : Intent) (amount now : ℕ) (s : State)
        → IsCovered intent
        → FundStep s (spend_permanent_fund env intent amount now s).0
    close :
        (intent : Intent) (reason : String) (now : ℕ) (s : State)
        → IsCovered intent
        → FundStep s (close_permanent_fund env intent reason now s).0
    top_up :
        (req : TopupRequest) (intent : Intent) (now : ℕ) (s : State)
        → IsCovered intent
        → (ensure_permanent_fund intent now s).contributed + req.amount < u64_mod
        → FundStep s (
            topup_writes env req intent
              (topped_fund req.amount now (ensure_permanent_fund intent now s))
              now
              s)

  pub data FundSteps (s : State) : State → Type 0 where
    here : FundSteps s s
    next : {t u : State} → FundSteps s t → FundStep t u → FundSteps s u

  step-AllFunded :
      {s t : State}
      → FundStep s t
      → AllFunded s.permanent_storage_funds
      → AllFunded t.permanent_storage_funds
  step-AllFunded (spend intent amount now s covered) all =
      spend-AllFunded intent amount now s covered all
  step-AllFunded (close intent reason now s covered) all =
      close-AllFunded intent reason now s covered all
  step-AllFunded (top_up req intent now s covered fits) all =
      topup-AllFunded req intent now s covered fits all

  -- Over any sequence of payouts, closures and top-ups, in any order, no permanent fund pays out,
  -- burns and keeps more than was contributed to it. Each step is for a deal that has paid,
  -- refunded and burned no more than it locked, and a top-up keeps the contributions a uint64.
  pub steps-AllFunded :
      (s t : State)
      → FundSteps s t
      → AllFunded s.permanent_storage_funds
      → AllFunded t.permanent_storage_funds
  steps-AllFunded s t here all = all
  steps-AllFunded s t (next run step) all = step-AllFunded step (steps-AllFunded s _ run all)
