-- ===== src/Multisig/Wallets.antt =====
-- The shape of a wallet: how many signers it has, and how many must sign.
use falari.Prelude.{
  ℕ, ◌≤◌, String, List, map, none, some, ◌≡◌, ◌∙◌, inl, inr, ok, err, Option-cases, Result-cases,
  length, ap, arith,
}
use falari.Arith.{add64}
use falari.Dict.{lookup}
use falari.Dict.Laws.{lookup-insert_self}
use falari.Types.{MultisigWallet}
use falari.Env.{Env, normalize_address}
use falari.State.{State}
use falari.Multisig.{
  MultisigOperation, transfer, update_signers, update_threshold, create_intent, batch_transfer,
  malformed, unsupported, missing, MultisigExecRequest, MultisigCreateRequest, bad_threshold,
  validate_multisig_signers, verify_multisig_exec_signatures, create_multisig_wallet,
}
use falari.Multisig.Execution.{exec_operation, multisig_exec, apply_multisig_exec, commit}

-- A wallet of 2 to 16 signers of whom at least `least`, and at most all, must sign.
abbrev pub IsSound : ℕ → MultisigWallet → Type 0
IsSound least w = (least ≤ w.threshold) × (w.threshold ≤ length w.signers) × (length w.signers ≤ 16)

module _ (env : Env) where
  validate_multisig_signers-bounds :
      (signers : List String)
      → validate_multisig_signers env signers ≡ ok tt
      → (2 ≤ length signers) × (length signers ≤ 16)
  unfolding validate_multisig_signers
  validate_multisig_signers-bounds signers h = ground arith

  exec_operation-IsSound :
      (least : ℕ) (operation : MultisigOperation) (fee : ℕ) (w w' : MultisigWallet) (s s' : State)
      → least ≤ 2
      → IsSound least w
      → exec_operation env least operation fee w s ≡ ok (s', w')
      → IsSound least w'
  unfolding exec_operation
  exec_operation-IsSound least (transfer inner) fee w w' s s' two h e = ground arith
  exec_operation-IsSound least (update_signers new_signers new_threshold) fee w w' s s' two h e =
      ground (arith, validate_multisig_signers-bounds (map (normalize_address env) new_signers))
  exec_operation-IsSound least (update_threshold new_threshold) fee w w' s s' two h e = ground arith
  exec_operation-IsSound least (create_intent file_name file_size locked_fee) fee w w' s s' two h
        e =
      ground arith
  exec_operation-IsSound least (batch_transfer transfers) fee w w' s s' two h e = ground arith
  exec_operation-IsSound least malformed fee w w' s s' two h e = ground arith
  exec_operation-IsSound least unsupported fee w w' s s' two h e = ground arith
  exec_operation-IsSound least missing fee w w' s s' two h e = ground arith

  -- What an accepted operation has gone through, on either side.
  pub apply_multisig_exec-ok :
      (req : MultisigExecRequest) (s s' : State)
      → apply_multisig_exec env req s ≡ ok s'
      → (w : MultisigWallet) × (after : State × MultisigWallet) × (lookup req.wallet
            s.multisig_wallets
          ≡ some w)
        × (req.nonce ≡ w.nonce)
        × (exec_operation env 1 req.operation req.fee w s ≡ ok after)
        × (s' ≡ commit env req.wallet after)
  unfolding apply_multisig_exec
  apply_multisig_exec-ok req s s' h = elim (Option-cases (lookup req.wallet s.multisig_wallets)) [
    | inl e ↦ absurd (ground (arith, e))
    | inr (w, e) ↦ elim (Result-cases (exec_operation env 1 req.operation req.fee w s)) [
      | inl (after, k) ↦ (w, after, e, ground (arith, e, k), k, ground (arith, e, k))
      | inr (_, k) ↦ absurd (ground (arith, e, k))
    ]
  ]

  multisig_exec-ok :
      (request : MultisigExecRequest) (s s' : State) (recorded : MultisigExecRequest)
      → multisig_exec env request s ≡ ok (s', recorded)
      → (w : MultisigWallet) × (after : State × MultisigWallet) × (lookup
            (normalize_address env request.wallet)
            s.multisig_wallets
          ≡ some w)
        × (request.nonce ≡ w.nonce)
        × (exec_operation env 2 request.operation request.fee w s ≡ ok after)
        × (s' ≡ commit env (normalize_address env request.wallet) after)
  unfolding multisig_exec
  multisig_exec-ok request s s' recorded h =
      elim (Option-cases (lookup (normalize_address env request.wallet) s.multisig_wallets)) [
        | inl e ↦ absurd (ground (arith, e))
        | inr (w, e) ↦
            elim (Result-cases (exec_operation env 2 request.operation request.fee w s)) [
              | inl (after, k) ↦ (w, after, e, ground (arith, e, k), k, ground (arith, e, k))
              | inr (_, k) ↦ absurd (ground (arith, e, k))
            ]
      ]

  -- What a commit leaves under the wallet's address.
  commit-lookup :
      (a : String) (after : State × MultisigWallet)
      → lookup a (commit env a after).multisig_wallets
        ≡ some (record after.1 { nonce = add64 after.1.nonce 1 })
  commit-lookup a (s, w) =
      lookup-insert_self a (record w { nonce = add64 w.nonce 1 }) s.multisig_wallets

  pub exec_operation-nonce :
      (least : ℕ) (operation : MultisigOperation) (fee : ℕ) (w w' : MultisigWallet) (s s' : State)
      → exec_operation env least operation fee w s ≡ ok (s', w')
      → w'.nonce ≡ w.nonce
  unfolding exec_operation
  exec_operation-nonce least (transfer inner) fee w w' s s' e = ground arith
  exec_operation-nonce least (update_signers new_signers new_threshold) fee w w' s s' e =
      ground arith
  exec_operation-nonce least (update_threshold new_threshold) fee w w' s s' e = ground arith
  exec_operation-nonce least (create_intent file_name file_size locked_fee) fee w w' s s' e =
      ground arith
  exec_operation-nonce least (batch_transfer transfers) fee w w' s s' e = ground arith
  exec_operation-nonce least malformed fee w w' s s' e = ground arith
  exec_operation-nonce least unsupported fee w w' s s' e = ground arith
  exec_operation-nonce least missing fee w w' s s' e = ground arith

  -- Whatever operation the receiving node accepts, the wallet has 2 to 16 signers afterwards, of whom
  -- at least two and at most all must sign, if that was so before; and its nonce has gone up by one.
  pub multisig_exec-IsSound :
      (request : MultisigExecRequest) (s s' : State) (recorded : MultisigExecRequest)
      (w : MultisigWallet)
      → multisig_exec env request s ≡ ok (s', recorded)
      → lookup (normalize_address env request.wallet) s.multisig_wallets ≡ some w
      → IsSound 2 w
      → (w' : MultisigWallet) × (lookup (normalize_address env request.wallet) s'.multisig_wallets
          ≡ some w')
        × IsSound 2 w'
        × (w'.nonce ≡ add64 w.nonce 1)
  multisig_exec-IsSound request s s' recorded w h found sound =
      let (w1, after, found1, _, ran, end) = multisig_exec-ok request s s' recorded h in
      let same : w1 ≡ w = ground (arith, found, found1) in
      let ran' : exec_operation env 2 request.operation request.fee w s ≡ ok (after.0, after.1) =
        rw same at ran in
      (
        record after.1 { nonce = add64 after.1.nonce 1 },
        ap (λ (t : State). lookup (normalize_address env request.wallet) t.multisig_wallets) end
            ∙ commit-lookup (normalize_address env request.wallet) after,
        exec_operation-IsSound 2 request.operation request.fee w after.1 s after.0 (omega arith)
            sound ran',
        ap (λ (n : ℕ). add64 n 1)
            (exec_operation-nonce 2 request.operation request.fee w after.1 s after.0 ran'),
      )

  -- A wallet that is created has 2 to 16 signers, of whom at least two and at most all must sign, and
  -- starts with nonce 0 under an address where no wallet was.
  pub create_multisig_wallet-IsSound :
      (multisig_address : List String → ℕ → ℕ → String) (req : MultisigCreateRequest) (wall : ℕ)
      (s s' : State) (w : MultisigWallet)
      → create_multisig_wallet env multisig_address req wall s ≡ ok (s', w)
      → IsSound 2 w
        × (w.nonce ≡ 0)
        × (lookup w.address s.multisig_wallets ≡ none)
        × (lookup w.address s'.multisig_wallets ≡ some w)
  unfolding create_multisig_wallet
  create_multisig_wallet-IsSound multisig_address req wall s s' w h = ground (
    arith,
    validate_multisig_signers-bounds (map (normalize_address env) req.signers),
    lookup-insert_self w.address w s.multisig_wallets,
  )

  -- The two sides disagree on a threshold of one: a properly signed request for it is refused by the
  -- node that receives it, and accepted by every node that replays it from a block, after which one
  -- signer is enough.
  pub replay_takes_threshold_one :
      (req : MultisigExecRequest) (s : State) (w : MultisigWallet)
      → req.operation ≡ update_threshold 1
      → lookup req.wallet s.multisig_wallets ≡ some w
      → IsSound 2 w
      → req.nonce ≡ w.nonce
      → s.fee_market.base_fee ≤ req.fee
      → verify_multisig_exec_signatures env req w ≡ ok tt
      → (exec_operation env 2 req.operation req.fee w s ≡ err bad_threshold)
        × (apply_multisig_exec env req s
            ≡ ok (commit env req.wallet (s, record w { threshold = 1 })))
  unfolding apply_multisig_exec exec_operation
  replay_takes_threshold_one req s w one found sound nonce fee signed =
      ground (arith, one, found, signed)
