-- ===== src/Multisig/Replay.antt =====
-- A node that replays a recorded operation ends where the node that received it ended.
use falari.Prelude.{ℕ, ◌≡◌, inl, inr, ok, Option-cases, Result-cases, arith}
use falari.Dict.{lookup}
use falari.Types.{MultisigWallet}
use falari.Env.{Env, normalize_address}
use falari.State.{State}
use falari.Multisig.{
  MultisigOperation, transfer, update_signers, update_threshold, create_intent, batch_transfer,
  malformed, unsupported, missing, MultisigExecRequest,
}
use falari.Multisig.Execution.{exec_operation, multisig_exec, apply_multisig_exec}

module _ (env : Env) where
  -- What passes the stricter bound of the receiving node passes that of the replay.
  exec_operation-weaken :
      (operation : MultisigOperation) (fee : ℕ) (w : MultisigWallet) (s : State)
      (after : State × MultisigWallet)
      → exec_operation env 2 operation fee w s ≡ ok after
      → exec_operation env 1 operation fee w s ≡ ok after
  unfolding exec_operation
  exec_operation-weaken (transfer inner) fee w s after e = e
  exec_operation-weaken (update_signers new_signers new_threshold) fee w s after e = e
  exec_operation-weaken (update_threshold new_threshold) fee w s after e = ground arith
  exec_operation-weaken (create_intent file_name file_size locked_fee) fee w s after e = e
  exec_operation-weaken (batch_transfer transfers) fee w s after e = e
  exec_operation-weaken malformed fee w s after e = e
  exec_operation-weaken unsupported fee w s after e = e
  exec_operation-weaken missing fee w s after e = e

  -- An operation that a node accepts is accepted by a node that replays its record on the same state,
  -- and leaves both in the same state.
  pub multisig_exec_replayed :
      (request recorded : MultisigExecRequest) (s s' : State)
      → multisig_exec env request s ≡ ok (s', recorded)
      → apply_multisig_exec env recorded s ≡ ok s'
  unfolding multisig_exec apply_multisig_exec
  multisig_exec_replayed request recorded s s' h =
      let a = normalize_address env request.wallet in
      elim (Option-cases (lookup a s.multisig_wallets)) [
        | inl e ↦ absurd (ground (arith, e))
        | inr (w, e) ↦
            elim (Result-cases (exec_operation env 2 request.operation request.fee w s)) [
              | inl (after, k) ↦
                  ground
                    (arith, e, k, exec_operation-weaken request.operation request.fee w s after k)
              | inr (_, k) ↦ absurd (ground (arith, e, k))
            ]
      ]
