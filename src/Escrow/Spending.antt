-- ===== src/Escrow/Spending.antt =====
-- What a payment out of a finite deal does, and how a burn is booked.
use falari.Prelude.{
  ℕ, ◌+◌, ◌-◌, ◌≤◌, ◌<◌, String, false, ◌≡◌, ◌≢◌, ◌⊎◌, ◌||◌, inl, inr, ap, str_eq, eq_iff, ◌==◌,
  Bool-cases, arith,
}
use falari.Arith.{u64_mod, saturating_add}
use falari.Arith.Bounds.{saturating_add_exact}
use falari.Dict.{Dict, insert}
use falari.Escrow.Accrual.{accrued-mono_bounded}
use falari.Dict.Laws.{lookup-insert_self}
use falari.Types.{Intent, DealEscrow}
use falari.Env.{Env, normalize_address}
use falari.State.{State}
use falari.Accounts.{account_at, account_locked}
use falari.Accounts.Funds.{holdings, circulating, circulating-insert}
use falari.Escrow.Bookings.{record_storage_fee_burn}
use falari.Escrow.{
  finite_deal_escrow_accrued, finite_deal_escrow_available, remaining_intent_escrow, finite_payment,
  spend_finite_storage_fee, ensure_deal_escrow, synced_escrow, set_times, escrow_at, unlock_storage,
  is_permanent_intent, put_intent,
}

-- An intent has not given away more than it locked.
abbrev pub IsCovered : Intent → Type 0
IsCovered intent =
    (intent.paid_fee + intent.refunded_fee + intent.burned_fee ≤ intent.locked_fee)
    × (intent.locked_fee < u64_mod)

pub ensure-accounts :
    (intent : Intent) (s : State) → (ensure_deal_escrow intent s).accounts ≡ s.accounts
unfolding ensure_deal_escrow
ensure-accounts intent s = ground arith

pub ensure-pools :
    (intent : Intent) (s : State) → (ensure_deal_escrow intent s).reward_pools ≡ s.reward_pools
unfolding ensure_deal_escrow
ensure-pools intent s = ground arith

pub remaining-room :
    (intent : Intent)
    → IsCovered intent
    → remaining_intent_escrow intent + intent.paid_fee + intent.refunded_fee + intent.burned_fee
      ≡ intent.locked_fee
unfolding remaining_intent_escrow
remaining-room intent covered = ground arith

escrow_at-insert_self :
    (id : String) (escrow : DealEscrow) (escrows : Dict DealEscrow)
    → escrow_at id (insert id escrow escrows) ≡ escrow
escrow_at-insert_self id escrow escrows = rw (lookup-insert_self id escrow escrows, escrow_at)

available-le :
    (escrow : DealEscrow) (intent : Intent) (now : ℕ)
    → 0 < finite_deal_escrow_available escrow intent now
    → finite_deal_escrow_available escrow intent now + escrow.paid_fee
      ≡ finite_deal_escrow_accrued escrow intent now
unfolding finite_deal_escrow_available
available-le escrow intent now h = ground arith

module _ (env : Env) where
  payment_bounds :
      (intent : Intent) (escrow : DealEscrow) (requested now : ℕ) (s : State)
      → (finite_payment env intent escrow requested now s ≤ requested)
        × (finite_payment env intent escrow requested now s ≤ remaining_intent_escrow intent)
        × (finite_payment env intent escrow requested now s
            ≤ (account_locked env s intent.user).locked_storage)
        × (finite_payment env intent escrow requested now s
            ≤ finite_deal_escrow_available escrow intent now)
  unfolding finite_payment
  payment_bounds intent escrow requested now s = ground arith

  pub unlock-circulating :
      (user : String) (amount : ℕ) (s : State)
      → normalize_address env user ≡ user
      → amount ≤ (account_locked env s user).locked_storage
      → circulating (unlock_storage env user amount s).accounts + amount ≡ circulating s.accounts
  unfolding account_locked holdings
  unlock-circulating user amount s normal enough =
      let account = account_locked env s user in
      let e : account ≡ account_at s.accounts user = ap (account_at s.accounts) normal in
      omega (
        arith,
        circulating-insert user
            (record account { locked_storage = account.locked_storage - amount }) s.accounts,
        ap holdings e,
      )

  pub spend_finite-circulating :
      (intent : Intent) (requested now : ℕ) (s : State)
      → normalize_address env intent.user ≡ intent.user
      → let (s', intent', paid) = spend_finite_storage_fee env intent requested now s in
        (paid ≤ requested)
        × (circulating s'.accounts + paid ≡ circulating s.accounts)
        × (s'.reward_pools ≡ s.reward_pools)
  unfolding spend_finite_storage_fee
  spend_finite-circulating intent requested now s normal =
      let s1 = ensure_deal_escrow intent s in
      let escrow = escrow_at intent.intent_id s1.deal_escrows in
      let paid = finite_payment env intent escrow requested now s1 in
      let bounds = payment_bounds intent escrow requested now s1 in
      ground (
        arith,
        bounds,
        ensure-pools intent s,
        ap circulating (ensure-accounts intent s),
        unlock-circulating intent.user paid s1 normal bounds.2,
      )

  -- A payment out of a finite deal never exceeds what was asked for. It takes exactly the amount
  -- from what all accounts own (the caller vests it to a miner), it counts the amount as paid by
  -- the intent, and the intent has still not paid, refunded and burned more than it locked. It
  -- holds for an intent that is covered before, whose user's address is in its normal spelling.
  pub spend_finite-IsCovered :
      (intent : Intent) (requested now : ℕ) (s : State)
      → normalize_address env intent.user ≡ intent.user
      → IsCovered intent
      → let (s', intent', paid) = spend_finite_storage_fee env intent requested now s in
        (paid ≤ requested)
        × (circulating s'.accounts + paid ≡ circulating s.accounts)
        × (intent'.paid_fee ≡ intent.paid_fee + paid)
        × IsCovered intent'
  unfolding spend_finite_storage_fee
  spend_finite-IsCovered intent requested now s normal covered =
      let s1 = ensure_deal_escrow intent s in
      let escrow = escrow_at intent.intent_id s1.deal_escrows in
      let paid = finite_payment env intent escrow requested now s1 in
      let bounds = payment_bounds intent escrow requested now s1 in
      ground (
        arith,
        bounds,
        remaining-room intent covered,
        ap circulating (ensure-accounts intent s),
        unlock-circulating intent.user paid s1 normal bounds.2,
        saturating_add_exact intent.paid_fee paid,
      )

  -- A payment out of a finite deal is covered by what has accrued: either nothing is paid, or the
  -- escrow has afterwards paid at most what it then has accrued, which is at most the locked fee.
  pub spend_finite-le-accrued :
      (intent : Intent) (requested now : ℕ) (s : State)
      → (escrow_at intent.intent_id (ensure_deal_escrow intent s).deal_escrows).paid_fee < u64_mod
      → (escrow_at intent.intent_id (ensure_deal_escrow intent s).deal_escrows).locked_fee < u64_mod
      → let (s', intent', paid) = spend_finite_storage_fee env intent requested now s in
        let escrow = escrow_at intent.intent_id s'.deal_escrows in
        (paid ≡ 0)
        ⊎ ((escrow.paid_fee ≤ escrow.accrued_fee) × (escrow.accrued_fee ≤ escrow.locked_fee))
  unfolding spend_finite_storage_fee
  spend_finite-le-accrued intent requested now s small fee_small =
      let s1 = ensure_deal_escrow intent s in
      let escrow = escrow_at intent.intent_id s1.deal_escrows in
      let paid = finite_payment env intent escrow requested now s1 in
      let accrued = finite_deal_escrow_accrued escrow intent now in
      let new : DealEscrow = record escrow {
        accrued_fee = accrued;
        last_accrued_at_unix = now;
        paid_fee = saturating_add escrow.paid_fee paid;
      } in
      let bounds = payment_bounds intent escrow requested now s1 in
      let top = (accrued-mono_bounded escrow intent now now (omega arith)).1 in
      elim (Bool-cases (requested == 0 || is_permanent_intent intent)) [
        | inl out ↦ inl (rw out)
        | inr asked ↦ elim (Bool-cases (paid == 0)) [
          | inl none_paid ↦ inl (rw (asked, none_paid))
          | inr some_paid ↦ inr (
              rw (asked, some_paid)
                (rw (escrow_at-insert_self intent.intent_id new s1.deal_escrows) (
                  ground (
                    arith,
                    some_paid,
                    bounds,
                    available-le escrow intent now,
                    saturating_add_exact escrow.paid_fee paid,
                  ),
                  top,
                )))
        ]
      ]

set_times-burned :
    (intent : Intent) (escrow : DealEscrow)
    → (set_times intent escrow).burned_fee ≡ escrow.burned_fee
unfolding set_times
set_times-burned intent escrow = ground arith

synced-burned :
    (intent : Intent) (s : State)
    → intent.intent_id ≢ ""
    → 0 < intent.locked_fee
    → (escrow_at intent.intent_id (ensure_deal_escrow intent s).deal_escrows).burned_fee
      ≡ intent.burned_fee
unfolding ensure_deal_escrow synced_escrow
synced-burned intent s named some_fee =
    let kept : (str_eq intent.intent_id "" || intent.locked_fee == 0) ≡ false =
      ground (arith, eq_iff intent.intent_id "") in
    rw
      (
        kept,
        escrow_at-insert_self intent.intent_id (synced_escrow intent s.deal_escrows) s.deal_escrows,
      )
      (set_times-burned intent _)

-- The escrow of a deal that burns an amount is booked with it twice: it is first brought up to the
-- intent, which has the burn already, and then the burn is added. It holds for a deal with an id
-- and a locked fee, where twice the amount still fits.
pub burn_booked_twice :
    (intent : Intent) (amount : ℕ) (s : State)
    → intent.intent_id ≢ ""
    → 0 < intent.locked_fee
    → 0 < amount
    → intent.burned_fee + amount + amount < u64_mod
    → let (s', intent') = record_storage_fee_burn intent amount s in
      (intent'.burned_fee ≡ intent.burned_fee + amount)
      × ((escrow_at intent.intent_id s'.deal_escrows).burned_fee ≡ intent'.burned_fee + amount)
unfolding record_storage_fee_burn
burn_booked_twice intent amount s named some_fee some_amount fits =
    let intent' = record intent { burned_fee = saturating_add intent.burned_fee amount } in
    let s0 = put_intent intent' s in
    let escrow = escrow_at intent.intent_id (ensure_deal_escrow intent' s0).deal_escrows in
    let once = saturating_add_exact intent.burned_fee amount (omega arith) in
    let synced : escrow.burned_fee ≡ intent'.burned_fee = synced-burned intent' s0 named some_fee in
    let twice = saturating_add_exact (intent.burned_fee + amount) amount (omega arith) in
    let paid_out : (amount == 0) ≡ false = ground arith in
    rw paid_out (
      once,
      rw
          (escrow_at-insert_self intent.intent_id
            (record escrow {
              burned_fee = saturating_add escrow.burned_fee amount;
              status = intent.storage_status;
            })
            (ensure_deal_escrow intent' s0).deal_escrows)
          (rw (synced, once) twice),
    )
