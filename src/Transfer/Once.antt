-- ===== src/Transfer/Once.antt =====
-- Runs of transfers (applyTransfer in internal/chain/tx_replay.go) in the order of the blocks, and what
-- they do to the nonces.
use falari.Prelude.{
  ℕ, ◌+◌, ◌-◌, ◌≤◌, ◌<◌, String, Bool, Option, List, [], ◌∷◌, length, ◌≡◌, ◌≢◌, inl, inr, ap, sym,
  ok, err, Bool-cases, Result-cases, str_eq, eq_iff, eq_refl, if◌then◌else◌, arith,
}
use falari.Arith.{u64_mod, add64}
use falari.Dict.{insert}
use falari.Types.{Account}
use falari.Dict.Laws.{str_ne-of-false, str_eq-false}
use falari.Env.{Env, normalize_address, normalize_address_idempotent}
use falari.State.{State}
use falari.Accounts.{account_at, account_locked}
use falari.Accounts.Funds.{account_at-insert_self, account_at-insert_ne}
use falari.Transfer.{TransferRequest, move_funds, apply_signed_transfer, apply_transfer}
use falari.Transfer.Conservation.{key_of}

-- A transfer with what the node learns about its signature: the recovered key, and the verdict.
pub record TransferStep : Type 0 where
  pub request : TransferRequest
  pub recovered : Option String
  pub signed : Bool

module _ (env : Env) where
  -- A transfer that is refused leaves the state as it is.
  abbrev step : TransferStep → State → State
  step t s = elim (apply_transfer env t.request t.recovered t.signed s) [ ok s' ↦ s' | err _ ↦ s ]

  unfoldable pub run : List TransferStep → State → State
  run [] s = s
  run (t ∷ rest) s = run rest (step t s)

  abbrev nonce_at : String → State → ℕ
  nonce_at a s = (account_at s.accounts a).nonce

  -- What an accepted transfer has checked of its nonce.
  accepted :
      (req : TransferRequest) (recovered : Option String) (signed : Bool) (s s' : State)
      → apply_transfer env req recovered signed s ≡ ok s'
      → (normalize_address env req.from ≢ normalize_address env req.to)
        × (req.nonce ≡ nonce_at (normalize_address env req.from) s)
        × (s' ≡ move_funds env req (key_of recovered) s)
  unfolding apply_transfer apply_signed_transfer account_locked
  accepted req recovered signed s s' h = ground (
    arith,
    eq_iff (normalize_address env req.from) (normalize_address env req.to),
    normalize_address_idempotent env req.from,
  )

  -- The two writes advance the sender's nonce and no other.
  move_funds_nonces :
      (req : TransferRequest) (key a : String) (s : State)
      → normalize_address env req.from ≢ normalize_address env req.to
      → nonce_at a (move_funds env req key s) ≡ (
          if str_eq (normalize_address env req.from) a
          then add64 (nonce_at a s) 1
          else nonce_at a s)
  unfolding move_funds account_locked
  move_funds_nonces req key a s ne =
      let p = normalize_address env req.from in
      let q = normalize_address env req.to in
      let idp = normalize_address_idempotent env req.from in
      let idq = normalize_address_idempotent env req.to in
      let from = account_at s.accounts p in
      let to = account_at s.accounts q in
      let from' : Account = record from {
        balance = from.balance - req.amount;
        nonce = add64 from.nonce 1;
        public_key = if str_eq key "" then from.public_key else key;
      } in
      let to' : Account = record to { balance = add64 to.balance req.amount } in
      let s1 = insert p from' s.accounts in
      rw (idp, idq)
        (elim (Bool-cases (str_eq p a)) [
          | inl one ↦
              let e : p ≡ a = (eq_iff p a).0 one in
              rw (← e) (
                ground (
                  arith,
                  eq_refl p,
                  account_at-insert_self p from' s.accounts,
                  account_at-insert_ne q p to' s1 (λ h. ne (sym h)),
                ))
          | inr two ↦ elim (Bool-cases (str_eq q a)) [
            | inl other ↦
                let e : q ≡ a = (eq_iff q a).0 other in
                let shut = str_eq-false p q ne in
                rw (← e) (ground (arith, shut, account_at-insert_self q to' s1))
            | inr neither ↦ ground (
              arith,
              two,
              account_at-insert_ne p a from' s.accounts (str_ne-of-false p a two),
              account_at-insert_ne q a to' s1 (str_ne-of-false q a neither),
            )
          ]
        ])

  -- No transfer takes a nonce back, and none advances it by more than one.
  nonce_step :
      (t : TransferStep) (a : String) (s : State)
      → nonce_at a s + 1 < u64_mod
      → (nonce_at a s ≤ nonce_at a (step t s)) × (nonce_at a (step t s) ≤ nonce_at a s + 1)
  nonce_step t a s fits =
      elim (Result-cases (apply_transfer env t.request t.recovered t.signed s)) [
        | inl (s', e) ↦
            let (ne, _, after) = accepted t.request t.recovered t.signed s s' e in
            ground (
              arith,
              e,
              ap (λ (u : State). nonce_at a u) after,
              move_funds_nonces t.request (key_of t.recovered) a s ne,
            )
        | inr (_, e) ↦ ground (arith, e)
      ]

  nonce_run :
      (steps : List TransferStep) (a : String) (s : State)
      → nonce_at a s + length steps < u64_mod
      → nonce_at a s ≤ nonce_at a (run steps s)
  unfolding run
  nonce_run [] a s fits = omega arith
  nonce_run (t ∷ rest) a s fits =
      let (up, most) = nonce_step t a s (omega arith) in
      omega (arith, up, nonce_run rest a (step t s) (omega (arith, most)))

  -- A signed transfer is accepted at most once: after it has been accepted, and after any run of
  -- transfers that are accepted or refused, the same request is refused, whatever the recovered key
  -- and the verdict on the signature are then. It holds as long as the run cannot take a nonce past
  -- the end of a uint64.
  pub transfer_once :
      (req : TransferRequest) (recovered recovered' : Option String) (signed signed' : Bool)
      (steps : List TransferStep) (s s' s'' : State)
      → req.nonce + length steps + 1 < u64_mod
      → apply_transfer env req recovered signed s ≡ ok s'
      → apply_transfer env req recovered' signed' (run steps s') ≢ ok s''
  transfer_once req recovered recovered' signed signed' steps s s' s'' fits h again =
      let a = normalize_address env req.from in
      let (ne, nonce, after) = accepted req recovered signed s s' h in
      let (_, nonce', _) = accepted req recovered' signed' (run steps s') s'' again in
      let bumped : nonce_at a s' ≡ req.nonce + 1 = ground (
        arith,
        eq_refl a,
        nonce,
        ap (λ (u : State). nonce_at a u) after,
        move_funds_nonces req (key_of recovered) a s ne,
      ) in
      absurd (omega (arith, bumped, nonce', nonce_run steps a s' (omega (arith, bumped))))
