-- ===== src/Escrow.antt =====
-- The fees that a storage deal locks (internal/chain/storage_fee_pool.go, and remainingIntentEscrow
-- of storage_payments.go): the escrow of a deal, what has accrued to the miners and what is paid.
-- Bookings has refunds and burns, Totals the totals of the pool. An intent that a function is given
-- is a pointer into the map of intents: its change is written there. Nil intents are left out.
pub mod Accrual
pub mod Bookings
pub mod Totals
pub mod Spending
use falari.Prelude.{
  ℕ, ◌+◌, ◌-◌, ◌%◌, ◌^◌, String, Bool, true, false, ◌||◌, ◌&&◌, List, [], ◌∷◌, Option, none, some,
  str_eq, ltb, leb, ◌==◌, if◌then◌else◌,
}
use falari.Arith.{add64, saturating_add, mul_div_uint64}
use falari.Dict.{Dict, lookup, insert, has}
use falari.Types.{
  Account, Intent, IntentStatus, finalized, DealEscrow, PermanentStorageFund, StorageFeePool,
}
use falari.Env.{Env}
use falari.State.{State}
use falari.Accounts.{account_locked}

unfoldable pub first_non_zero : List ℕ → ℕ
first_non_zero [] = 0
first_non_zero (v ∷ vs) = if v == 0 then first_non_zero vs else v

abbrev pub is_permanent_intent : Intent → Bool
is_permanent_intent intent = intent.duration == 0

unfoldable pub remaining_intent_escrow : Intent → ℕ
remaining_intent_escrow intent =
    let used = add64 (add64 intent.paid_fee intent.refunded_fee) intent.burned_fee in
    if leb intent.locked_fee used then 0 else intent.locked_fee - used

abbrev pub is_finalized : IntentStatus → Bool
is_finalized finalized = true
is_finalized _ = false

abbrev pub put_intent : Intent → State → State
put_intent intent s = record s { intents = insert intent.intent_id intent s.intents }

-- What Go reads from the map where there is no entry.
abbrev pub zero_escrow : DealEscrow
zero_escrow = record {
  intent_id = "";
  user = "";
  locked_fee = 0;
  paid_fee = 0;
  refunded_fee = 0;
  burned_fee = 0;
  accrued_fee = 0;
  start_at_unix = 0;
  expires_at_unix = 0;
  last_accrued_at_unix = 0;
  status = "";
  permanent = false;
}

abbrev pub escrow_at : String → Dict DealEscrow → DealEscrow
escrow_at id escrows = elim (lookup id escrows) [ none ↦ zero_escrow | some escrow ↦ escrow ]

abbrev pub put_escrow : String → DealEscrow → State → State
put_escrow id escrow s = record s { deal_escrows = insert id escrow s.deal_escrows }

-- The times of a finalised deal.
unfoldable pub set_times : Intent → DealEscrow → DealEscrow
set_times intent escrow =
    let start =
      if escrow.start_at_unix == 0
      then first_non_zero (intent.updated_at ∷ intent.created_at ∷ [])
      else escrow.start_at_unix in
    let expires =
      if ltb 0 intent.expires_at_unix
      then intent.expires_at_unix
      else if ltb 0 intent.duration && ltb 0 start
      then start + intent.duration
      else escrow.expires_at_unix in
    if is_finalized intent.status
    then record escrow { start_at_unix = start; expires_at_unix = expires }
    else escrow

-- The escrow as ensureDealEscrowForState writes it, over the one that is there or a new one.
unfoldable pub synced_escrow : Intent → Dict DealEscrow → DealEscrow
synced_escrow intent escrows = set_times intent (record (escrow_at intent.intent_id escrows) {
  intent_id = elim (lookup intent.intent_id escrows) [
    | none ↦ intent.intent_id
    | some escrow ↦ escrow.intent_id
  ];
  user = intent.user;
  locked_fee = intent.locked_fee;
  paid_fee = intent.paid_fee;
  refunded_fee = intent.refunded_fee;
  burned_fee = intent.burned_fee;
  status = intent.storage_status;
  permanent = is_permanent_intent intent;
})

unfoldable pub ensure_deal_escrow : Intent → State → State
ensure_deal_escrow intent s =
    if str_eq intent.intent_id "" || intent.locked_fee == 0
    then s
    else put_escrow intent.intent_id (synced_escrow intent s.deal_escrows) s

-- dealEscrowLocked: the state that it leaves, and the escrow that it reads there.
abbrev pub deal_escrow_locked : Intent → State → State × DealEscrow
deal_escrow_locked intent s =
    let s' = ensure_deal_escrow intent s in (s', escrow_at intent.intent_id s'.deal_escrows)

unfoldable pub create_deal_escrow : Intent → State → State
create_deal_escrow intent s =
    let s' = ensure_deal_escrow intent s in
    if str_eq intent.intent_id "" || intent.locked_fee == 0
    then s
    else if has intent.intent_id s.deal_escrows
    then s'
    else record s' {
      storage_fee_pool = record s'.storage_fee_pool {
        total_locked = saturating_add s'.storage_fee_pool.total_locked intent.locked_fee;
      };
    }

unfoldable pub activate_deal_escrow : Intent → ℕ → State → State
activate_deal_escrow intent now s =
    let (s', escrow) = deal_escrow_locked intent s in
    if str_eq intent.intent_id ""
    then s
    else put_escrow intent.intent_id
        (record escrow {
          start_at_unix = if escrow.start_at_unix == 0 then now else escrow.start_at_unix;
          expires_at_unix =
              if ltb 0 intent.duration then now + intent.duration else escrow.expires_at_unix;
          status = "active";
        })
        s'

unfoldable pub add_deal_escrow_funds : Intent → ℕ → ℕ → State → State
add_deal_escrow_funds intent amount now s =
    let (s', escrow) = deal_escrow_locked intent s in
    let added = record escrow {
      locked_fee = intent.locked_fee;
      status = intent.storage_status;
      permanent = is_permanent_intent intent;
      start_at_unix =
          if escrow.start_at_unix == 0 && is_finalized intent.status
          then first_non_zero (intent.updated_at ∷ now ∷ [])
          else escrow.start_at_unix;
      expires_at_unix =
          if ltb 0 intent.expires_at_unix then intent.expires_at_unix else escrow.expires_at_unix;
    } in
    let s1 = put_escrow intent.intent_id added s' in
    if amount == 0 then s else record s1 {
      storage_fee_pool = record s1.storage_fee_pool {
        total_locked = saturating_add s1.storage_fee_pool.total_locked amount;
      };
    }

-- The share of a fee for the time that has passed since the start.
unfoldable pub accrued_since : ℕ → ℕ → ℕ → ℕ → ℕ
accrued_since start duration fee now =
    if leb now start
    then 0
    else if duration == 0 || leb duration (now - start)
    then fee
    else mul_div_uint64 fee (now - start) 1 duration

-- Finite deals pay over their time: what has accrued at `now`.
abbrev pub start_of : DealEscrow → Intent → ℕ
start_of escrow intent =
    if escrow.start_at_unix == 0
    then first_non_zero (intent.updated_at ∷ intent.created_at ∷ [])
    else escrow.start_at_unix

abbrev pub duration_of : DealEscrow → Intent → ℕ
duration_of escrow intent =
    let start = start_of escrow intent in
    let expires =
      if escrow.expires_at_unix == 0 then start + intent.duration else escrow.expires_at_unix in
    if ltb start expires then expires - start else intent.duration

unfoldable pub finite_deal_escrow_accrued : DealEscrow → Intent → ℕ → ℕ
finite_deal_escrow_accrued escrow intent now =
    if escrow.locked_fee == 0 || intent.duration == 0
    then 0
    else accrued_since (start_of escrow intent) (duration_of escrow intent) escrow.locked_fee now

unfoldable pub finite_deal_escrow_available : DealEscrow → Intent → ℕ → ℕ
finite_deal_escrow_available escrow intent now =
    let accrued = finite_deal_escrow_accrued escrow intent now in
    if leb accrued escrow.paid_fee then 0 else accrued - escrow.paid_fee

abbrev pub least : ℕ → ℕ → ℕ
least a b = if ltb b a then b else a

module _ (env : Env) where
  -- What spendFiniteStorageFeeLocked pays of a request.
  unfoldable pub finite_payment : Intent → DealEscrow → ℕ → ℕ → State → ℕ
  finite_payment intent escrow requested now s =
      least
        (least (least requested (finite_deal_escrow_available escrow intent now))
          (remaining_intent_escrow intent))
        (account_locked env s intent.user).locked_storage

  abbrev pub unlock_storage : String → ℕ → State → State
  unlock_storage user amount s =
      let account = account_locked env s user in
      record s {
        accounts =
            insert user (record account { locked_storage = account.locked_storage - amount })
              s.accounts;
      }

  -- The state, with the intent as it is after, and the amount that is paid.
  unfoldable pub spend_finite_storage_fee : Intent → ℕ → ℕ → State → State × Intent × ℕ
  spend_finite_storage_fee intent requested now s =
      let (s1, escrow) = deal_escrow_locked intent s in
      let paid = finite_payment intent escrow requested now s1 in
      let accrued = record escrow {
        accrued_fee = finite_deal_escrow_accrued escrow intent now;
        last_accrued_at_unix = now;
      } in
      let s2 = unlock_storage intent.user paid s1 in
      let intent' = record intent { paid_fee = saturating_add intent.paid_fee paid } in
      let s3 =
        put_escrow intent.intent_id
          (record accrued { paid_fee = saturating_add escrow.paid_fee paid })
          (put_intent intent' s2) in
      if requested == 0 || is_permanent_intent intent
      then (s, intent, 0)
      else if paid == 0
      then (put_escrow intent.intent_id accrued s1, intent, 0)
      else (
        record s3 {
          storage_fee_pool = record s3.storage_fee_pool {
            total_paid = saturating_add s3.storage_fee_pool.total_paid paid;
          };
        },
        intent',
        paid,
      )
