-- ===== src/PermanentFund/Topup.antt =====
-- A top-up of a permanent fund, on the receiving node and on replay.
use falari.Prelude.{
  ℕ, ◌<◌, Bool, false, true, ◌≡◌, refl, ◌||◌, inl, inr, some, Option-cases, Result-cases, ok,
  str_eq, eq_refl, ltb, ◌==◌, arith,
}
use falari.Dict.{lookup}
use falari.Types.{Intent, PermanentStorageFund}
use falari.Env.{Env, normalize_address, normalize_address_idempotent}
use falari.State.{State}
use falari.Accounts.{account_locked, verify_account_request}
use falari.PermanentFund.{
  ensure_permanent_fund, topped_fund, topup_writes, TopupRequest, TopupPayload, find_intent,
  same_fund, same_flag, top_up_permanent_fund, apply_permanent_fund_top_up,
}

==_refl : (n : ℕ) → (n == n) ≡ true
==_refl n = ground arith

same_flag_refl : (b : Bool) → same_flag b b ≡ true
same_flag_refl true = refl
same_flag_refl false = refl

same_fund_refl : (f : PermanentStorageFund) → same_fund f f ≡ true
unfolding same_fund
same_fund_refl f = rw (
  eq_refl f.intent_id,
  eq_refl f.user,
  ==_refl f.balance,
  ==_refl f.contributed,
  ==_refl f.paid,
  ==_refl f.burned,
  ==_refl f.sustainable_daily_rate,
  ==_refl f.initial_daily_rate,
  ==_refl f.created_at_unix,
  ==_refl f.updated_at_unix,
  ==_refl f.last_payout_unix,
  same_flag_refl f.closed,
  eq_refl f.closed_reason,
  ==_refl f.closed_at_unix,
  ==_refl f.transferred_to_pool,
)

module _ (env : Env) where
  abbrev pub cleaned : TopupRequest → TopupRequest
  cleaned request = record request { user = normalize_address env request.user }

  -- What a top-up that succeeds found, and what it did.
  top_up_lem :
      (request : TopupRequest) (now : ℕ) (signed : Bool) (s : State) {s' : State}
      {payload : TopupPayload}
      → top_up_permanent_fund env request now signed s ≡ ok (s', payload)
      → let req = cleaned request in
        (intent : Intent) × (lookup req.intent_id s.intents ≡ some intent)
        × ((str_eq req.intent_id "" || str_eq req.user "") ≡ false)
        × ((req.amount == 0) ≡ false)
        × (str_eq intent.user req.user ≡ true)
        × ((intent.duration == 0) ≡ true)
        × (verify_account_request env s req.chain_id req.user req.nonce signed ≡ ok tt)
        × (ltb (account_locked env s req.user).balance req.amount ≡ false)
        × (s'
            ≡ topup_writes env req intent
                (topped_fund req.amount now (ensure_permanent_fund intent now s))
                now
                s)
        × (payload ≡ record {
          request = req;
          response = topped_fund req.amount now (ensure_permanent_fund intent now s);
          topped_up_at_unix = now;
        })
  unfolding top_up_permanent_fund
  top_up_lem request now signed s h =
      let req = cleaned request in
      elim (Option-cases (lookup req.intent_id s.intents)) [
        | inl missing ↦ absurd (ground (arith, missing))
        | inr (intent, found) ↦
            elim (Result-cases
              (verify_account_request env s req.chain_id req.user req.nonce signed)) [
                | inr (e, failed) ↦ absurd (ground (arith, found, failed))
                | inl (_, verified) ↦ (
                  intent,
                  found,
                  ground (arith, found, verified),
                  ground (arith, found, verified),
                  ground (arith, found, verified),
                  ground (arith, found, verified),
                  ground (arith, verified),
                  ground (arith, found, verified),
                  ground (arith, found, verified),
                  ground (arith, found, verified),
                )
              ]
      ]

  -- A top-up that the receiving node accepts is accepted by every node that replays it from the
  -- same state, and leaves the same state there, where the clock of the receiving node is past 0.
  pub top_up_replayed :
      (request : TopupRequest) (now : ℕ) (signed : Bool) (s s' : State) (payload : TopupPayload)
      → 0 < now
      → top_up_permanent_fund env request now signed s ≡ ok (s', payload)
      → apply_permanent_fund_top_up env payload signed s ≡ ok s'
  unfolding apply_permanent_fund_top_up
  top_up_replayed request now signed s s' payload timed h =
      let req = cleaned request in
      let (intent, found, named, some_amount, owner, permanent, verified, enough, after, recorded) =
        top_up_lem request now signed s h in
      let searched : find_intent req.intent_id s ≡ ok intent = rw (found, find_intent) in
      let clock : (now == 0) ≡ false = ground arith in
      rw (recorded, after, normalize_address_idempotent env request.user)
        (rw (
          named,
          some_amount,
          clock,
          searched,
          owner,
          permanent,
          verified,
          same_fund_refl (topped_fund req.amount now (ensure_permanent_fund intent now s)),
          enough,
        ))
