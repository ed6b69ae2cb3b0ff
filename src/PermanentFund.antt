-- ===== src/PermanentFund.antt =====
-- The funds of permanent deals (internal/chain/permanent_fund.go) and the payments that miners get
-- out of deals (storage_payments.go). The clock is `now`; what wire.VerifyPermanentFundTopUp finds
-- out about the signature is `signed`. Events and the record of the transaction are left out.
pub mod Topup
pub mod Payouts
pub mod Payable
pub mod Balance
pub mod Payments
use falari.Prelude.{
  ℕ, ◌+◌, ◌-◌, ◌*◌, ◌/◌, ◌%◌, ◌^◌, String, Bool, true, false, not, ◌||◌, ◌&&◌, List, [], ◌∷◌,
  Option, none, some, Result, ok, err, fail_if, ◌>>=◌, ◌>>◌, str_eq, ltb, leb, ◌==◌, if◌then◌else◌,
}
use falari.Arith.{mul64, saturating_add}
use falari.Dict.{Dict, lookup, insert}
use falari.Types.{Intent, PermanentStorageFund, DealEscrow}
use falari.Env.{Env, normalize_address}
use falari.State.{State}
use falari.Accounts.{account_locked, AuthError, verify_account_request, consume_account_nonce}
use falari.Escrow.{
  first_non_zero, is_permanent_intent, remaining_intent_escrow, put_intent, deal_escrow_locked,
  put_escrow, add_deal_escrow_funds, finite_deal_escrow_available, spend_finite_storage_fee, least,
}
use falari.Vesting.{vest_mining_reward}

-- 2% of the balance a year.
unfoldable pub permanent_fund_daily_rate : ℕ → ℕ
permanent_fund_daily_rate balance =
    let rate = mul64 balance 200 / 10000 / 365 in
    if balance == 0 then 0 else if rate == 0 then 1 else rate

abbrev pub new_fund : Intent → ℕ → PermanentStorageFund
new_fund intent now =
    let remaining = remaining_intent_escrow intent in
    record {
      intent_id = intent.intent_id;
      user = intent.user;
      balance = remaining;
      contributed = intent.locked_fee;
      paid = intent.paid_fee;
      burned = 0;
      sustainable_daily_rate = permanent_fund_daily_rate remaining;
      initial_daily_rate = permanent_fund_daily_rate remaining;
      created_at_unix = first_non_zero (intent.created_at ∷ now ∷ []);
      updated_at_unix = now;
      last_payout_unix = 0;
      closed = false;
      closed_reason = "";
      closed_at_unix = 0;
      transferred_to_pool = 0;
    }

-- The fields that older funds lack.
abbrev pub completed : Intent → ℕ → PermanentStorageFund → PermanentStorageFund
completed intent now fund = record fund {
  user = if str_eq fund.user "" then intent.user else fund.user;
  created_at_unix =
      if fund.created_at_unix == 0
      then first_non_zero (intent.created_at ∷ now ∷ [])
      else fund.created_at_unix;
  updated_at_unix = if fund.updated_at_unix == 0 then now else fund.updated_at_unix;
  initial_daily_rate =
      if fund.initial_daily_rate == 0 && ltb 0 fund.sustainable_daily_rate
      then fund.sustainable_daily_rate
      else fund.initial_daily_rate;
}

-- ensurePermanentFundLocked, which writes nothing.
unfoldable pub ensure_permanent_fund : Intent → ℕ → State → PermanentStorageFund
ensure_permanent_fund intent now s =
    completed intent now (elim (lookup intent.intent_id s.permanent_storage_funds) [
      | none ↦ new_fund intent now
      | some fund ↦ fund
    ])

abbrev pub put_fund : Intent → PermanentStorageFund → State → State
put_fund intent fund s = record s {
  permanent_storage_funds = insert intent.intent_id fund s.permanent_storage_funds;
}

abbrev pub grow_pool : ℕ → State → State
grow_pool amount s = record s {
  storage_fee_pool = record s.storage_fee_pool {
    permanent_fund_balance = saturating_add s.storage_fee_pool.permanent_fund_balance amount;
  };
}

-- The subtraction that stops at 0, as the code writes it out.
abbrev pub shrink_pool : ℕ → State → State
shrink_pool amount s = record s {
  storage_fee_pool = record s.storage_fee_pool {
    permanent_fund_balance = s.storage_fee_pool.permanent_fund_balance - amount;
  };
}

unfoldable pub create_permanent_fund : Intent → ℕ → State → State × Intent
create_permanent_fund intent now s =
    let fund = ensure_permanent_fund intent now s in
    let intent' = record intent {
      permanent_fund_balance = fund.balance;
      permanent_fund_paid = fund.paid;
    } in
    if is_permanent_intent intent
    then (put_intent intent' (grow_pool fund.balance (put_fund intent fund s)), intent')
    else (s, intent)

abbrev pub spent_fund : ℕ → ℕ → PermanentStorageFund → PermanentStorageFund
spent_fund amount now fund = record fund {
  balance = fund.balance - amount;
  paid = saturating_add fund.paid amount;
  last_payout_unix = now;
  updated_at_unix = now;
  sustainable_daily_rate = permanent_fund_daily_rate (fund.balance - amount);
}

abbrev pub topped_fund : ℕ → ℕ → PermanentStorageFund → PermanentStorageFund
topped_fund amount now fund = record fund {
  balance = saturating_add fund.balance amount;
  contributed = saturating_add fund.contributed amount;
  sustainable_daily_rate = permanent_fund_daily_rate (saturating_add fund.balance amount);
  initial_daily_rate = permanent_fund_daily_rate (saturating_add fund.balance amount);
  updated_at_unix = now;
  closed = false;
  closed_reason = "";
  closed_at_unix = 0;
  transferred_to_pool = 0;
}

-- PermanentFundTopUpRequest
pub record TopupRequest : Type 0 where
  pub chain_id : String
  pub intent_id : String
  pub user : String
  pub amount : ℕ
  pub nonce : ℕ

-- permanentFundTopUpTxPayload
pub record TopupPayload : Type 0 where
  pub request : TopupRequest
  pub response : PermanentStorageFund
  pub topped_up_at_unix : ℕ

pub data TopupError : Type 0 where
  ids_required amount_required intent_not_found user_mismatch not_permanent : TopupError
  not_finalized insufficient_balance timestamp_required response_mismatch : TopupError
  auth : AuthError → TopupError

abbrev pub from_auth : {A : Type 0} → Result AuthError A → Result TopupError A
from_auth (ok a) = ok a
from_auth (err e) = err (auth e)

abbrev pub find_intent : String → State → Result TopupError Intent
find_intent id s = elim (lookup id s.intents) [ none ↦ err intent_not_found | some i ↦ ok i ]

-- The comparison of two funds.
abbrev pub same_flag : Bool → Bool → Bool
same_flag true b = b
same_flag false b = not b

unfoldable pub same_fund : PermanentStorageFund → PermanentStorageFund → Bool
same_fund a b =
    str_eq a.intent_id b.intent_id
    && str_eq a.user b.user
    && a.balance == b.balance
    && a.contributed == b.contributed
    && a.paid == b.paid
    && a.burned == b.burned
    && a.sustainable_daily_rate == b.sustainable_daily_rate
    && a.initial_daily_rate == b.initial_daily_rate
    && a.created_at_unix == b.created_at_unix
    && a.updated_at_unix == b.updated_at_unix
    && a.last_payout_unix == b.last_payout_unix
    && same_flag a.closed b.closed
    && str_eq a.closed_reason b.closed_reason
    && a.closed_at_unix == b.closed_at_unix
    && a.transferred_to_pool == b.transferred_to_pool

module _ (env : Env) where
  -- The writes of both copies of the top-up, after the fund has been worked out.
  unfoldable pub topup_writes : TopupRequest → Intent → PermanentStorageFund → ℕ → State → State
  topup_writes req intent fund now s0 =
      let s = consume_account_nonce env req.user s0 in
      let account = account_locked env s req.user in
      let s1 = record s {
        accounts =
            insert req.user
              (record account {
                balance = account.balance - req.amount;
                locked_storage = saturating_add account.locked_storage req.amount;
              })
              s.accounts;
      } in
      let grown = record intent { locked_fee = saturating_add intent.locked_fee req.amount } in
      let s2 = add_deal_escrow_funds grown req.amount now (put_fund intent fund s1) in
      put_intent
        (record grown {
          permanent_fund_balance = fund.balance;
          permanent_fund_paid = fund.paid;
          updated_at = now;
        })
        (grow_pool req.amount s2)

  -- TopUpPermanentFund; the new state, and what the block will carry.
  unfoldable pub top_up_permanent_fund :
      TopupRequest → ℕ → Bool → State → Result TopupError (State × TopupPayload)
  top_up_permanent_fund request now signed s = do
    let req = record request { user = normalize_address env request.user }
    fail_if (str_eq req.intent_id "" || str_eq req.user "") ids_required
    fail_if (req.amount == 0) amount_required
    intent ← find_intent req.intent_id s
    fail_if (not (str_eq intent.user req.user)) user_mismatch
    fail_if (not (is_permanent_intent intent)) not_permanent
    fail_if intent.burn_deferred not_finalized
    from_auth (verify_account_request env s req.chain_id req.user req.nonce signed)
    fail_if (ltb (account_locked env s req.user).balance req.amount) insufficient_balance
    let fund = topped_fund req.amount now (ensure_permanent_fund intent now s)
    ok (
      topup_writes req intent fund now s,
      record { request = req; response = fund; topped_up_at_unix = now },
    )

  unfoldable pub apply_permanent_fund_top_up : TopupPayload → Bool → State → Result TopupError State
  apply_permanent_fund_top_up payload signed s = do
    let request = payload.request
    let req = record request { user = normalize_address env request.user }
    fail_if (str_eq req.intent_id "" || str_eq req.user "") ids_required
    fail_if (req.amount == 0) amount_required
    let now = payload.topped_up_at_unix
    fail_if (now == 0) timestamp_required
    intent ← find_intent req.intent_id s
    fail_if (not (str_eq intent.user req.user)) user_mismatch
    fail_if (not (is_permanent_intent intent)) not_permanent
    from_auth (verify_account_request env s req.chain_id req.user req.nonce signed)
    let fund = topped_fund req.amount now (ensure_permanent_fund intent now s)
    fail_if (not (same_fund payload.response fund)) response_mismatch
    fail_if (ltb (account_locked env s req.user).balance req.amount) insufficient_balance
    ok (topup_writes req intent fund now s)
