-- ===== src/Multisig.antt =====
-- Multisig wallets (internal/chain/multisig.go, internal/wire/multisig.go): their creation, and the
-- operations that M of N signers authorise, on the receiving node and on replay (`apply_…`). The
-- derivation of an address (a hash), the key that is recovered from each signature, the decoding of
-- an operation's JSON payload and the clock are arguments.
pub mod Execution
pub mod Signatures
pub mod Wallets
pub mod Once
pub mod Money
pub mod Batch
pub mod Replay
use Prim.Native.String.{◌++◌, compare}
use Prim.Native.Nat.{Ordering}
use falari.Prelude.{
  ℕ, ◌+◌, ◌-◌, ◌%◌, ◌^◌, String, Bool, true, false, not, ◌&&◌, ◌||◌, List, [], ◌∷◌, map, Option,
  none, some, Result, ok, err, fail_if, ◌>>=◌, ◌>>◌, str_eq, ltb, leb, ◌==◌, if◌then◌else◌, length,
  contains,
}
use falari.Arith.{add64, ArithError, transfer_total_cost}
use falari.Dict.{Dict, lookup, insert, has}
use falari.Types.{Account, MultisigWallet, Intent, IntentStatus, uploading}
use falari.Text.{lower_case, equal_fold}
use falari.Env.{Env, normalize_address}
use falari.State.{State}
use falari.Accounts.{account_locked, empty_account}

-- One entry of Signatures, with the address of the key that the signature recovers to.
pub record MultisigSignature : Type 0 where
  pub signer : String
  pub recovered : Option String

pub record MultisigTransfer : Type 0 where
  pub to : String
  pub amount : ℕ

-- Operation and Payload, decoded.
pub data MultisigOperation : Type 0 where
  transfer : MultisigTransfer → MultisigOperation
  update_signers : List String → ℕ → MultisigOperation
  update_threshold : ℕ → MultisigOperation
  create_intent : String → ℕ → ℕ → MultisigOperation
  batch_transfer : List MultisigTransfer → MultisigOperation
  malformed unsupported missing : MultisigOperation

pub record MultisigExecRequest : Type 0 where
  pub wallet : String
  pub operation : MultisigOperation
  pub chain_id : String
  pub nonce : ℕ
  pub fee : ℕ
  pub signatures : List MultisigSignature

pub record MultisigCreateRequest : Type 0 where
  pub chain_id : String
  pub signers : List String
  pub threshold : ℕ
  pub salt : ℕ
  pub recovered : Option String

pub data MultisigError : Type 0 where
  too_few too_many not_hex duplicate not_sorted bad_threshold unsigned not_a_signer : MultisigError
  chain_id_mismatch wallet_exists wallet_required wallet_not_found bad_nonce : MultisigError
  fee_below_base not_enough_signatures bad_signature signer_mismatch : MultisigError
  bad_payload recipient_required amount_required overflows insufficient_balance : MultisigError
  file_name_required fee_required no_transfers unsupported_operation operation_required :
      MultisigError
  address_required address_mismatch : MultisigError

abbrev pub lift : Result ArithError ℕ → Result MultisigError ℕ
lift (ok n) = ok n
lift (err _) = err overflows

-- strings.Compare(a, b) < 0
abbrev pub before : String → String → Bool
before a b = elim (compare a b) [ Ordering.lt ↦ true | _ ↦ false ]

-- The order is checked against the one before, if there is one.
abbrev pub in_order : Option String → String → Bool
in_order none lower = true
in_order (some prev) lower = before prev lower

abbrev pub require_recovered : Option String → Result MultisigError String
require_recovered none = err bad_signature
require_recovered (some a) = ok a

module _ (env : Env) where
  abbrev pub lower : String → String
  lower a = lower_case (normalize_address env a)

  -- The loop of ValidateMultisigSigners, with `seen` and the signer before.
  unfoldable pub check_signers :
      List String → Option String → List String → Result MultisigError (Unit {0})
  check_signers seen prev [] = ok tt
  check_signers seen prev (s ∷ rest) =
      let later = check_signers (lower s ∷ seen) (some (lower s)) rest in
      do
        fail_if (not (env.is_hex_address s)) not_hex
        fail_if (contains (lower s) seen) duplicate
        fail_if (not (in_order prev (lower s))) not_sorted
        later

  unfoldable pub validate_multisig_signers : List String → Result MultisigError (Unit {0})
  validate_multisig_signers signers = do
    fail_if (ltb (length signers) 2) too_few
    fail_if (ltb 16 (length signers)) too_many
    check_signers [] none signers

  -- The loop of VerifyMultisigExecSignatures.
  unfoldable pub check_signatures :
      List String
      → List String
      → Option String
      → List MultisigSignature
      → Result MultisigError (Unit {0})
  check_signatures allowed seen prev [] = ok tt
  check_signatures allowed seen prev (sig ∷ rest) = do
    recovered ← require_recovered sig.recovered
    fail_if (not (equal_fold recovered sig.signer)) signer_mismatch
    fail_if (not (contains (lower recovered) allowed)) not_a_signer
    fail_if (contains (lower recovered) seen) duplicate
    fail_if (not (in_order prev (lower recovered))) not_sorted
    check_signatures allowed (lower recovered ∷ seen) (some (lower recovered)) rest

  unfoldable pub verify_multisig_exec_signatures :
      MultisigExecRequest → MultisigWallet → Result MultisigError (Unit {0})
  verify_multisig_exec_signatures req wallet = do
    fail_if (ltb (length req.signatures) wallet.threshold) not_enough_signatures
    check_signatures (map lower wallet.signers) [] none req.signatures

  -- VerifyMultisigCreateSignature: one of the signers has signed.
  unfoldable pub signed_by_one : List String → String → Bool
  signed_by_one [] address = false
  signed_by_one (s ∷ rest) address =
      equal_fold (normalize_address env s) address || signed_by_one rest address

  abbrev pub bad_bounds : ℕ → ℕ → List String → Bool
  bad_bounds least threshold signers = ltb threshold least || ltb (length signers) threshold

  abbrev pub put_wallet : String → MultisigWallet → State → State
  put_wallet a wallet s = record s { multisig_wallets = insert a wallet s.multisig_wallets }

  -- The account entry of a new wallet.
  abbrev pub ensure_account : String → State → State
  ensure_account a s =
      if has a s.accounts then s else record s { accounts = insert a (empty_account a) s.accounts }

  unfoldable pub create_multisig_wallet :
      (List String → ℕ → ℕ → String)
      → MultisigCreateRequest
      → ℕ
      → State
      → Result MultisigError (State × MultisigWallet)
  create_multisig_wallet multisig_address req wall s = do
    let signers = map (normalize_address env) req.signers
    validate_multisig_signers signers
    fail_if (bad_bounds 2 req.threshold signers) bad_threshold
    let address = multisig_address signers req.threshold req.salt
    signer ← require_recovered req.recovered
    fail_if (not (signed_by_one signers signer)) not_a_signer
    fail_if (not (str_eq req.chain_id s.chain_id)) chain_id_mismatch
    fail_if (has address s.multisig_wallets) wallet_exists
    let wallet : MultisigWallet = record {
      address = address;
      signers = signers;
      threshold = req.threshold;
      nonce = 0;
      salt = req.salt;
      created_at_unix = wall;
    }
    ok (ensure_account address (put_wallet address wallet s), wallet)

  -- applyCreateMultisigLocked, on the recorded wallet.
  unfoldable pub apply_create_multisig :
      (List String → ℕ → ℕ → String) → MultisigWallet → State → Result MultisigError State
  apply_create_multisig multisig_address wallet s =
      if str_eq wallet.address ""
      then err address_required
      else if has wallet.address s.multisig_wallets
      then ok s
      else if not
          (equal_fold (multisig_address wallet.signers wallet.threshold wallet.salt) wallet.address)
      then err address_mismatch
      else ok (ensure_account wallet.address (put_wallet wallet.address wallet s))
