-- ===== src/Transfer.antt =====
-- Signed transfers: applyTransferLocked and applySignedTransferLocked (internal/chain/tx_replay.go).
-- The key that go-ethereum recovers from the signature, if any, is the argument `recovered`, and the
-- verdict of wire.VerifyTransferSignature the argument `signed`.
pub mod Conservation
pub mod Once
use falari.Prelude.{
  ℕ, ◌+◌, ◌-◌, ◌%◌, ◌^◌, String, Bool, true, false, not, ◌&&◌, Option, none, some, Result, ok, err,
  fail_if, ◌>>=◌, ◌>>◌, str_eq, ltb, ◌==◌, if◌then◌else◌,
}
use falari.Arith.{add64, ArithError, transfer_total_cost}
use falari.Dict.{Dict, lookup, insert}
use falari.Types.{Account}
use falari.Text.{equal_fold}
use falari.Env.{Env, normalize_address}
use falari.State.{State}
use falari.Accounts.{account_at, account_locked}

pub record TransferRequest : Type 0 where
  pub from : String
  pub to : String
  pub amount : ℕ
  pub nonce : ℕ
  pub fee : ℕ
  pub public_key : String
  pub signature : String

pub data TransferError : Type 0 where
  self_transfer unsigned no_recovery key_mismatch bad_signature account_key_mismatch : TransferError
  fee_below_base bad_nonce overflows insufficient_balance : TransferError

abbrev pub lift_cost : Result ArithError ℕ → Result TransferError ℕ
lift_cost (ok n) = ok n
lift_cost (err _) = err overflows

abbrev pub or_no_recovery : Option String → Result TransferError String
or_no_recovery none = err no_recovery
or_no_recovery (some k) = ok k

module _ (env : Env) where
  -- The writes of applySignedTransferLocked, the debit first.
  unfoldable pub move_funds : TransferRequest → String → State → State
  move_funds req public_key s =
      let from_address = normalize_address env req.from in
      let to_address = normalize_address env req.to in
      let from = account_locked env s from_address in
      let to = account_locked env s to_address in
      let from' = record from {
        balance = from.balance - req.amount;
        nonce = add64 from.nonce 1;
        public_key = if str_eq public_key "" then from.public_key else public_key;
      } in
      let to' = record to { balance = add64 to.balance req.amount } in
      record s { accounts = insert to_address to' (insert from_address from' s.accounts) }

  unfoldable pub apply_signed_transfer :
      TransferRequest → String → State → Result TransferError State
  apply_signed_transfer req public_key s = do
    let from = account_locked env s (normalize_address env req.from)
    fail_if (not (req.nonce == from.nonce)) bad_nonce
    cost ← lift_cost (transfer_total_cost req.amount req.fee)
    fail_if (ltb from.balance cost) insufficient_balance
    ok (move_funds req public_key s)

  unfoldable pub apply_transfer :
      TransferRequest → Option String → Bool → State → Result TransferError State
  apply_transfer req recovered signed s = do
    fail_if (str_eq (normalize_address env req.from) (normalize_address env req.to)) self_transfer
    let from = account_locked env s (normalize_address env req.from)
    fail_if (str_eq req.signature "") unsigned
    key ← or_no_recovery recovered
    fail_if (not (str_eq req.public_key "") && not (equal_fold req.public_key key)) key_mismatch
    fail_if (not signed) bad_signature
    fail_if (not (str_eq from.public_key "") && not (equal_fold from.public_key key))
        account_key_mismatch
    fail_if (ltb req.fee s.fee_market.base_fee) fee_below_base
    fail_if (not (req.nonce == from.nonce)) bad_nonce
    apply_signed_transfer req key s
