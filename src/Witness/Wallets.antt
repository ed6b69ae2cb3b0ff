-- ===== src/Witness/Wallets.antt =====
-- Examples for multisig wallets.
use falari.Prelude.{◌≤◌, ◌≡◌, ◌≢◌, refl, [], ◌∷◌, some, ok, arith, All, map, length, List}
use falari.Arith.{add64, transfer_total_cost}
use falari.Dict.{lookup, insert}
use falari.Types.{MultisigWallet}
use falari.Text.{equal_fold, same_folded, to_lower, lower_case}
use falari.Env.{normalize_address}
use falari.State.{State}
use falari.Accounts.{account_at, account_locked, empty_account}
use falari.Multisig.{
  MultisigTransfer, MultisigOperation, transfer, update_threshold, MultisigExecRequest,
  MultisigCreateRequest, lower, check_signers, validate_multisig_signers, check_signatures,
  verify_multisig_exec_signatures, signed_by_one, create_multisig_wallet, ensure_account,
  put_wallet,
}
use falari.Multisig.Execution.{
  exec_operation, exec_transfer, pay_all, multisig_exec, apply_multisig_exec, transfer_writes,
  commit,
}
use falari.Multisig.Signatures.{signing, NewAndDistinct, OneOf, signatures_are_a_quorum}
use falari.Multisig.Wallets.{IsSound, multisig_exec-IsSound}
use falari.Multisig.Once.{run, multisig_exec_once}
use falari.Multisig.Replay.{multisig_exec_replayed}
use falari.Fixtures.{plain, chain}

abbrev two_of_two : MultisigWallet
two_of_two = record {
  address = "ms";
  signers = "0xa1" ∷ "0xb2" ∷ [];
  threshold = 2;
  nonce = 3;
  salt = 0;
  created_at_unix = 0;
}

abbrev shared : State
shared = record chain {
  accounts = ("ms", record (empty_account "ms") { balance = 500_000_000 }) ∷ [];
  multisig_wallets = ("ms", two_of_two) ∷ [];
}

abbrev ask : MultisigOperation → MultisigExecRequest
ask operation = record {
  wallet = "ms";
  operation = operation;
  chain_id = "falari";
  nonce = 3;
  fee = 100_000_000;
  signatures =
      (record { signer = "0xa1"; recovered = some "0xa1" })
      ∷ (record { signer = "0xb2"; recovered = some "0xb2" })
      ∷ [];
}

abbrev to_bob : MultisigTransfer
to_bob = record { to = "bob"; amount = 40 }

ask_signed : verify_multisig_exec_signatures plain (ask (update_threshold 1)) two_of_two ≡ ok tt
unfolding verify_multisig_exec_signatures check_signatures equal_fold same_folded to_lower
    lower_case normalize_address
ask_signed = refl

signatures_are_a_quorum_example :
    let signers = signing plain (ask (update_threshold 1)).signatures in
    (2 ≤ length signers)
    × NewAndDistinct plain [] signers
    × All (OneOf plain (map (lower plain) two_of_two.signers)) signers
signatures_are_a_quorum_example =
    signatures_are_a_quorum plain (ask (update_threshold 1)) two_of_two ask_signed

abbrev paid : State
paid = commit plain "ms" (transfer_writes plain "bob" 40 100_000_040 two_of_two shared, two_of_two)

pay_accepted : multisig_exec plain (ask (transfer to_bob)) shared ≡ ok (paid, ask (transfer to_bob))
unfolding multisig_exec exec_operation exec_transfer transfer_total_cost account_locked account_at
    verify_multisig_exec_signatures check_signatures equal_fold same_folded to_lower lower_case
    normalize_address
pay_accepted = refl

multisig_exec-IsSound_example :
    (w' : MultisigWallet) × (lookup "ms" paid.multisig_wallets ≡ some w')
    × IsSound 2 w'
    × (w'.nonce ≡ add64 3 1)
unfolding normalize_address
multisig_exec-IsSound_example =
    multisig_exec-IsSound plain (ask (transfer to_bob)) shared paid (ask (transfer to_bob))
      two_of_two pay_accepted refl (omega arith, omega arith, omega arith)

multisig_exec_replayed_example : apply_multisig_exec plain (ask (transfer to_bob)) shared ≡ ok paid
multisig_exec_replayed_example =
    multisig_exec_replayed plain (ask (transfer to_bob)) (ask (transfer to_bob)) shared paid
      pay_accepted

-- The same operation again, and one under the next nonce.
abbrev later : List MultisigExecRequest
later = ask (transfer to_bob) ∷ record (ask (update_threshold 1)) { nonce = 4 } ∷ []

multisig_exec_once_example :
    apply_multisig_exec plain (ask (transfer to_bob)) (run plain later paid) ≢ ok paid
multisig_exec_once_example =
    multisig_exec_once plain (ask (transfer to_bob)) later shared paid paid (omega arith) (
      multisig_exec_replayed plain (ask (transfer to_bob)) (ask (transfer to_bob)) shared paid
        pay_accepted)

abbrev new_wallet : MultisigWallet
new_wallet = record {
  address = "ms2";
  signers = "0xa1" ∷ "0xb2" ∷ "0xc3" ∷ [];
  threshold = 2;
  nonce = 0;
  salt = 9;
  created_at_unix = 5;
}

abbrev creation : MultisigCreateRequest
creation = record {
  chain_id = "falari";
  signers = "0xa1" ∷ "0xb2" ∷ "0xc3" ∷ [];
  threshold = 2;
  salt = 9;
  recovered = some "0xb2";
}

abbrev created : State
created = ensure_account plain "ms2" (put_wallet plain "ms2" new_wallet shared)

creation_accepted :
    create_multisig_wallet plain (λ signers threshold salt. "ms2") creation 5 shared
    ≡ ok (created, new_wallet)
unfolding create_multisig_wallet validate_multisig_signers check_signers signed_by_one equal_fold
    same_folded to_lower lower_case normalize_address
creation_accepted = refl

abbrev batch : List MultisigTransfer
batch = to_bob ∷ to_bob ∷ []

abbrev batched : State
batched =
    let sent = pay_all plain batch shared in
    record sent {
      accounts = insert "ms" (record (empty_account "ms") { balance = 399_999_920 }) sent.accounts;
    }
