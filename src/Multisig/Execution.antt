-- ===== src/Multisig/Execution.antt =====
-- The switch over the operation in MultisigExec and applyMultisigExecLocked. The two copies of it
-- differ in one bound, the least threshold that update_threshold takes: 2 and 1.
use Prim.Native.String.{◌++◌}
use falari.Prelude.{
  Bool, true, false, ℕ, ◌-◌, String, not, List, [], ◌∷◌, map, none, some, Result, ok, err, fail_if,
  ◌>>=◌, ◌>>◌, str_eq, ltb, ◌==◌,
}
use falari.Arith.{add64, transfer_total_cost}
use falari.Dict.{lookup, insert}
use falari.Types.{MultisigWallet, Intent, uploading}
use falari.Env.{Env, normalize_address}
use falari.State.{State}
use falari.Accounts.{account_locked}
use falari.Text.{decimal}
use falari.Multisig.{
  MultisigSignature, MultisigTransfer, MultisigOperation, transfer, update_signers,
  update_threshold, create_intent, batch_transfer, malformed, unsupported, missing,
  operation_required, MultisigExecRequest, MultisigError, bad_threshold, chain_id_mismatch,
  wallet_required, wallet_not_found, bad_nonce, fee_below_base, bad_payload, recipient_required,
  amount_required, overflows, insufficient_balance, file_name_required, fee_required, no_transfers,
  unsupported_operation, lift, validate_multisig_signers, verify_multisig_exec_signatures,
  bad_bounds, put_wallet,
}

abbrev pub is_missing : MultisigOperation → Bool
is_missing missing = true
is_missing _ = false

module _ (env : Env) where
  abbrev pub pay : String → ℕ → State → State
  pay to amount s =
      let account = account_locked env s to in
      record s {
        accounts = insert to (record account { balance = add64 account.balance amount }) s.accounts;
      }

  -- Both accounts are read before either is written.
  abbrev pub transfer_writes : String → ℕ → ℕ → MultisigWallet → State → State
  transfer_writes to amount total wallet s =
      let from_account = account_locked env s wallet.address in
      let to_account = account_locked env s to in
      record s {
        accounts =
            insert to (record to_account { balance = add64 to_account.balance amount })
              (insert wallet.address
                (record from_account { balance = from_account.balance - total }) s.accounts);
      }

  unfoldable pub exec_transfer :
      MultisigTransfer → ℕ → MultisigWallet → State → Result MultisigError State
  exec_transfer inner fee wallet s = do
    let to = normalize_address env inner.to
    fail_if (str_eq to "") recipient_required
    fail_if (inner.amount == 0) amount_required
    let from_account = account_locked env s wallet.address
    total ← lift (transfer_total_cost inner.amount fee)
    fail_if (ltb from_account.balance total) insufficient_balance
    ok (transfer_writes to inner.amount total wallet s)

  abbrev pub multisig_intent : String → String → ℕ → ℕ → String → Intent
  multisig_intent id file_name file_size locked_fee user = record {
    intent_id = id;
    user = user;
    file_name = file_name;
    file_size = file_size;
    duration = 0;
    locked_fee = locked_fee;
    paid_fee = 0;
    refunded_fee = 0;
    burned_fee = 0;
    status = uploading;
    storage_status = "";
    expires_at_unix = 0;
    created_at = 0;
    updated_at = 0;
    permanent_fund_balance = 0;
    permanent_fund_paid = 0;
    burn_deferred = false;
    erasure = record { data_shards = 0; parity_shards = 0 };
    renewable = false;
    auto_renew = false;
  }

  unfoldable pub exec_create_intent :
      String → ℕ → ℕ → ℕ → MultisigWallet → State → Result MultisigError State
  exec_create_intent file_name file_size locked_fee fee wallet s = do
    fail_if (str_eq file_name "") file_name_required
    fail_if (locked_fee == 0) fee_required
    let from_account = account_locked env s wallet.address
    total ← lift (transfer_total_cost locked_fee fee)
    fail_if (ltb from_account.balance total) insufficient_balance
    let id = "ms-" ++ wallet.address ++ "-" ++ decimal wallet.nonce
    ok (record s {
      accounts =
          insert wallet.address (record from_account { balance = from_account.balance - total })
            s.accounts;
      intents =
          insert id (multisig_intent id file_name file_size locked_fee wallet.address) s.intents;
    })

  -- The first loop of a batch: the checks, and the sum.
  unfoldable pub batch_total : ℕ → List MultisigTransfer → Result MultisigError ℕ
  batch_total total [] = ok total
  batch_total total (t ∷ rest) =
      let later = batch_total (add64 total t.amount) rest in
      do
        fail_if (str_eq (normalize_address env t.to) "") recipient_required
        fail_if (t.amount == 0) amount_required
        fail_if (ltb (add64 total t.amount) total) overflows
        later

  -- The second loop: the payments, to the normalised recipients.
  unfoldable pub pay_all : List MultisigTransfer → State → State
  pay_all [] s = s
  pay_all (t ∷ rest) s = pay_all rest (pay (normalize_address env t.to) t.amount s)

  -- The wallet's account is read before the payments and written after them.
  unfoldable pub exec_batch :
      List MultisigTransfer → ℕ → MultisigWallet → State → Result MultisigError State
  exec_batch [] fee wallet s = err no_transfers
  exec_batch (t ∷ rest) fee wallet s = do
    amount ← batch_total 0 (t ∷ rest)
    let from_account = account_locked env s wallet.address
    total ← lift (transfer_total_cost amount fee)
    fail_if (ltb from_account.balance total) insufficient_balance
    let paid = pay_all (t ∷ rest) s
    ok (record paid {
      accounts =
          insert wallet.address (record from_account { balance = from_account.balance - total })
            paid.accounts;
    })

  abbrev pub keep_wallet :
      MultisigWallet → Result MultisigError State → Result MultisigError (State × MultisigWallet)
  keep_wallet wallet (ok s) = ok (s, wallet)
  keep_wallet wallet (err e) = err e

  unfoldable pub exec_operation :
      ℕ
      → MultisigOperation
      → ℕ
      → MultisigWallet
      → State
      → Result MultisigError (State × MultisigWallet)
  exec_operation least (transfer inner) fee wallet s =
      keep_wallet wallet (exec_transfer inner fee wallet s)
  exec_operation least (update_signers new_signers new_threshold) fee wallet s = do
    let signers = map (normalize_address env) new_signers
    validate_multisig_signers env signers
    fail_if (bad_bounds env 2 new_threshold signers) bad_threshold
    ok (s, record wallet { signers = signers; threshold = new_threshold })
  exec_operation least (update_threshold new_threshold) fee wallet s = do
    fail_if (bad_bounds env least new_threshold wallet.signers) bad_threshold
    ok (s, record wallet { threshold = new_threshold })
  exec_operation least (create_intent file_name file_size locked_fee) fee wallet s =
      keep_wallet wallet (exec_create_intent file_name file_size locked_fee fee wallet s)
  exec_operation least (batch_transfer transfers) fee wallet s =
      keep_wallet wallet (exec_batch transfers fee wallet s)
  exec_operation least malformed fee wallet s = err bad_payload
  exec_operation least unsupported fee wallet s = err unsupported_operation
  exec_operation least missing fee wallet s = err unsupported_operation

  abbrev pub find_wallet : String → State → Result MultisigError MultisigWallet
  find_wallet a s = elim (lookup a s.multisig_wallets) [
    | none ↦ err wallet_not_found
    | some wallet ↦ ok wallet
  ]

  -- The new nonce, written through the pointer in the map of wallets.
  abbrev pub commit : String → State × MultisigWallet → State
  commit a (s, wallet) = put_wallet env a (record wallet { nonce = add64 wallet.nonce 1 }) s

  abbrev pub normalized_signer : MultisigSignature → MultisigSignature
  normalized_signer sig = record sig { signer = normalize_address env sig.signer }

  -- MultisigExec; the new state, with the request as it is recorded.
  unfoldable pub multisig_exec :
      MultisigExecRequest → State → Result MultisigError (State × MultisigExecRequest)
  multisig_exec request s = do
    let req = record request {
      wallet = normalize_address env request.wallet;
      signatures = map normalized_signer request.signatures;
    }
    fail_if (str_eq req.wallet "") wallet_required
    fail_if (is_missing req.operation) operation_required
    fail_if (not (str_eq req.chain_id s.chain_id)) chain_id_mismatch
    wallet ← find_wallet req.wallet s
    fail_if (not (req.nonce == wallet.nonce)) bad_nonce
    fail_if (ltb req.fee s.fee_market.base_fee) fee_below_base
    verify_multisig_exec_signatures env req wallet
    after ← exec_operation 2 req.operation req.fee wallet s
    ok (commit req.wallet after, req)

  unfoldable pub apply_multisig_exec : MultisigExecRequest → State → Result MultisigError State
  apply_multisig_exec req s = do
    wallet ← find_wallet req.wallet s
    fail_if (not (req.nonce == wallet.nonce)) bad_nonce
    verify_multisig_exec_signatures env req wallet
    fail_if (ltb req.fee s.fee_market.base_fee) fee_below_base
    after ← exec_operation 1 req.operation req.fee wallet s
    ok (commit req.wallet after)
