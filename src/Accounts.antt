-- ===== src/Accounts.antt =====
-- Accounts and signed requests: accountLocked (internal/chain/state.go), verifyAccountRequestLocked
-- and consumeAccountNonceLocked (request_auth.go). What a wire.Verify function finds out about the
-- signature, which rests on go-ethereum's key recovery, is the argument `signed`.
pub mod Funds
use falari.Prelude.{
  ℕ, ◌+◌, ◌%◌, ◌^◌, String, Bool, not, none, some, Result, fail_if, ok, ◌>>=◌, ◌>>◌, str_eq, ◌==◌,
  if◌then◌else◌,
}
use falari.Arith.{add64}
use falari.Dict.{Dict, lookup, insert}
use falari.Types.{Account}
use falari.Env.{Env, normalize_address}
use falari.State.{State}

abbrev pub empty_account : String → Account
empty_account a = record {
  address = a;
  public_key = "";
  balance = 0;
  nonce = 0;
  locked_stake = 0;
  locked_storage = 0;
  unbonding_balance = 0;
  pending_mining_rewards = 0;
  locked_bonus = 0;
}

abbrev pub with_address : String → Account → Account
with_address k a = if str_eq a.address "" then record a { address = k } else a

-- The account under a normalised address; the zero account where there is none.
unfoldable pub account_at : Dict Account → String → Account
account_at accounts k = elim (lookup k accounts) [
  | none ↦ empty_account k
  | some a ↦ with_address k a
]

pub data AuthError : Type 0 where
  chain_id_required chain_id_mismatch bad_signature bad_nonce : AuthError

module _ (env : Env) where
  unfoldable pub account_locked : State → String → Account
  account_locked s address = account_at s.accounts (normalize_address env address)

  unfoldable pub verify_account_request :
      State → String → String → ℕ → Bool → Result AuthError (Unit {0})
  verify_account_request s chain_id address nonce signed = do
    fail_if (str_eq chain_id "") chain_id_required
    fail_if (not (str_eq chain_id s.chain_id)) chain_id_mismatch
    fail_if (not signed) bad_signature
    fail_if (not (nonce == (account_locked s (normalize_address env address)).nonce)) bad_nonce

  unfoldable pub consume_account_nonce : String → State → State
  consume_account_nonce address s =
      let account = account_locked s (normalize_address env address) in
      let bumped = record account { nonce = add64 account.nonce 1 } in
      record s { accounts = insert bumped.address bumped s.accounts }
