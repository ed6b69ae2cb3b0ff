-- ===== src/Multisig/Once.antt =====
-- Runs of replayed multisig operations (applyMultisigExecLocked) in the order of the blocks, and what
-- they do to the nonces of the wallets.
use falari.Prelude.{
  ℕ, ◌+◌, ◌≤◌, ◌<◌, String, List, [], ◌∷◌, length, ◌≡◌, refl, ◌≢◌, ◌∙◌, inl, inr, ap, sym, ok, err,
  Result-cases, Option, none, some, str_eq, eq_refl, eq_iff, true, if◌then◌else◌, arith,
}
use falari.Arith.{u64_mod, add64}
use falari.Dict.{Dict, lookup, insert}
use falari.Dict.Laws.{lookup-insert}
use falari.Types.{MultisigWallet}
use falari.Env.{Env, normalize_address}
use falari.State.{State}
use falari.Multisig.{
  MultisigTransfer, MultisigOperation, transfer, update_signers, update_threshold, create_intent,
  batch_transfer, malformed, unsupported, missing, MultisigExecRequest,
}
use falari.Multisig.Execution.{
  exec_operation, exec_transfer, exec_create_intent, exec_batch, pay, pay_all, apply_multisig_exec,
}
use falari.Multisig.Wallets.{exec_operation-nonce, apply_multisig_exec-ok}

abbrev nonce_of : Option MultisigWallet → ℕ
nonce_of none = 0
nonce_of (some w) = w.nonce

module _ (env : Env) where
  pay_all-wallets :
      (ts : List MultisigTransfer) (s : State)
      → (pay_all env ts s).multisig_wallets ≡ s.multisig_wallets
  unfolding pay_all
  pay_all-wallets [] s = refl
  pay_all-wallets (t ∷ rest) s =
      pay_all-wallets rest (pay env (normalize_address env t.to) t.amount s)

  exec_batch-wallets :
      (ts : List MultisigTransfer) (fee : ℕ) (w : MultisigWallet) (s s' : State)
      → exec_batch env ts fee w s ≡ ok s'
      → s'.multisig_wallets ≡ s.multisig_wallets
  unfolding exec_batch
  exec_batch-wallets [] fee w s s' e = absurd (cc)
  exec_batch-wallets (t ∷ rest) fee w s s' e = ground (arith, pay_all-wallets (t ∷ rest) s)

  -- An operation changes no wallet but the one it returns.
  exec_operation-wallets :
      (least : ℕ) (operation : MultisigOperation) (fee : ℕ) (w w' : MultisigWallet) (s s' : State)
      → exec_operation env least operation fee w s ≡ ok (s', w')
      → s'.multisig_wallets ≡ s.multisig_wallets
  unfolding exec_operation exec_transfer exec_create_intent
  exec_operation-wallets least (transfer inner) fee w w' s s' e = ground arith
  exec_operation-wallets least (update_signers new_signers new_threshold) fee w w' s s' e =
      ground arith
  exec_operation-wallets least (update_threshold new_threshold) fee w w' s s' e = ground arith
  exec_operation-wallets least (create_intent file_name file_size locked_fee) fee w w' s s' e =
      ground arith
  exec_operation-wallets least (batch_transfer transfers) fee w w' s s' e =
      elim (Result-cases (exec_batch env transfers fee w s)) [
        | inl (t, k) ↦ ground (arith, k, exec_batch-wallets transfers fee w s t k)
        | inr (_, k) ↦ absurd (ground (arith, k))
      ]
  exec_operation-wallets least malformed fee w w' s s' e = ground arith
  exec_operation-wallets least unsupported fee w w' s s' e = ground arith
  exec_operation-wallets least missing fee w w' s s' e = ground arith

  -- An operation that is refused leaves the state as it is.
  abbrev step : MultisigExecRequest → State → State
  step req s = elim (apply_multisig_exec env req s) [ ok s' ↦ s' | err _ ↦ s ]

  unfoldable pub run : List MultisigExecRequest → State → State
  run [] s = s
  run (req ∷ rest) s = run rest (step req s)

  abbrev nonce_in : String → State → ℕ
  nonce_in a s = nonce_of (lookup a s.multisig_wallets)

  -- A replayed operation advances its own wallet's nonce and no other's.
  accepted :
      (req : MultisigExecRequest) (a : String) (s s' : State)
      → apply_multisig_exec env req s ≡ ok s'
      → (req.nonce ≡ nonce_in req.wallet s)
        × (nonce_in a s' ≡ (if str_eq req.wallet a then add64 (nonce_in a s) 1 else nonce_in a s))
  accepted req a s s' h =
      let (w, after, found, nonce, ran, end) = apply_multisig_exec-ok env req s s' h in
      let w' : MultisigWallet = record after.1 { nonce = add64 after.1.nonce 1 } in
      let same : after.1.nonce ≡ w.nonce =
        exec_operation-nonce env 1 req.operation req.fee w after.1 s after.0 ran in
      let kept : after.0.multisig_wallets ≡ s.multisig_wallets =
        exec_operation-wallets 1 req.operation req.fee w after.1 s after.0 ran in
      let left : nonce_in a s' ≡ nonce_of (lookup a (insert req.wallet w' s.multisig_wallets)) =
        ap (λ (t : State). nonce_in a t) end
        ∙ ap (λ (m : Dict MultisigWallet). nonce_of (lookup a (insert req.wallet w' m))) kept in
      let own : nonce_in req.wallet s ≡ w.nonce = ap nonce_of found in
      let there : str_eq req.wallet a ≡ true → nonce_in a s ≡ w.nonce =
        λ e. ap (λ (k : String). nonce_in k s) (sym ((eq_iff req.wallet a).0 e)) ∙ own in
      (
        nonce ∙ sym own,
        left ∙ ground (arith, lookup-insert req.wallet a w' s.multisig_wallets, same, there),
      )

  -- No operation takes a nonce back, and none advances it by more than one.
  nonce_step :
      (req : MultisigExecRequest) (a : String) (s : State)
      → nonce_in a s + 1 < u64_mod
      → (nonce_in a s ≤ nonce_in a (step req s)) × (nonce_in a (step req s) ≤ nonce_in a s + 1)
  nonce_step req a s fits = elim (Result-cases (apply_multisig_exec env req s)) [
    | inl (s', e) ↦ ground (arith, e, (accepted req a s s' e).1)
    | inr (_, e) ↦ ground (arith, e)
  ]

  nonce_run :
      (steps : List MultisigExecRequest) (a : String) (s : State)
      → nonce_in a s + length steps < u64_mod
      → nonce_in a s ≤ nonce_in a (run steps s)
  unfolding run
  nonce_run [] a s fits = omega arith
  nonce_run (req ∷ rest) a s fits =
      let (up, most) = nonce_step req a s (omega arith) in
      omega (arith, up, nonce_run rest a (step req s) (omega (arith, most)))

  -- A signed operation is carried out at most once: after a node has replayed it, and after any run
  -- of replayed operations that are accepted or refused, it refuses to replay it again. It holds as
  -- long as the run cannot take a nonce past the end of a uint64.
  pub multisig_exec_once :
      (req : MultisigExecRequest) (steps : List MultisigExecRequest) (s s' s'' : State)
      → req.nonce + length steps + 1 < u64_mod
      → apply_multisig_exec env req s ≡ ok s'
      → apply_multisig_exec env req (run steps s') ≢ ok s''
  multisig_exec_once req steps s s' s'' fits h again =
      let (nonce, left) = accepted req req.wallet s s' h in
      let (nonce', _) = accepted req req.wallet (run steps s') s'' again in
      let bumped : nonce_in req.wallet s' ≡ req.nonce + 1 =
        ground (arith, eq_refl req.wallet, nonce, left) in
      absurd (omega (arith, bumped, nonce', nonce_run steps req.wallet s' (omega (arith, bumped))))
