-- ===== src/Transfer/Conservation.antt =====
-- What an accepted transfer does to the accounts.
use falari.Prelude.{
  ◌+◌, ◌≤◌, ◌<◌, String, Bool, Option, none, some, ◌≡◌, ◌≢◌, sym, ok, eq_iff, arith,
}
use falari.Arith.{u64_mod, add64}
use falari.Arith.Bounds.{overflow_checks_agree}
use falari.Env.{Env, normalize_address, normalize_address_idempotent}
use falari.State.{State}
use falari.Accounts.{account_at, account_locked}
use falari.Accounts.Funds.{
  holdings, circulating, circulating-move, holdings_two-le-circulating, account_at-insert_self,
  account_at-insert_ne,
}
use falari.Transfer.{TransferRequest, move_funds, apply_signed_transfer, apply_transfer}

abbrev pub key_of : Option String → String
key_of none = ""
key_of (some key) = key

module _ (env : Env) (req : TransferRequest) where
  abbrev sender : String
  sender = normalize_address env req.from

  abbrev recipient : String
  recipient = normalize_address env req.to

  account_locked-normalized :
      (s : State) (a : String)
      → account_locked env s (normalize_address env a)
        ≡ account_at s.accounts (normalize_address env a)
  unfolding account_locked
  account_locked-normalized s a = rw (normalize_address_idempotent env a)

  -- What an accepted transfer has checked.
  apply_transfer-ok :
      (recovered : Option String) (signed : Bool) (s s' : State)
      → req.amount < u64_mod
      → req.fee < u64_mod
      → apply_transfer env req recovered signed s ≡ ok s'
      → (sender ≢ recipient)
        × (req.nonce ≡ (account_at s.accounts sender).nonce)
        × (req.amount + req.fee ≤ (account_at s.accounts sender).balance)
        × (s' ≡ move_funds env req (key_of recovered) s)
  unfolding apply_transfer apply_signed_transfer
  apply_transfer-ok recovered signed s s' ha hf h = ground (
    arith,
    eq_iff sender recipient,
    account_locked-normalized s req.from,
    (overflow_checks_agree req.amount req.fee ha hf).0,
  )

  -- The two writes move the amount between the free balances and nothing else.
  move_funds-circulating :
      (key : String) (s : State)
      → sender ≢ recipient
      → req.amount ≤ (account_at s.accounts sender).balance
      → circulating s.accounts < u64_mod
      → circulating (move_funds env req key s).accounts ≡ circulating s.accounts
  unfolding move_funds holdings
  move_funds-circulating key s ne covered fits =
      rw (account_locked-normalized s req.from, account_locked-normalized s req.to)
        (circulating-move sender recipient _ _ req.amount s.accounts ne (omega arith)
          (omega (arith, holdings_two-le-circulating sender recipient s.accounts ne)))

  move_funds_effect :
      (key : String) (s : State) (other : String)
      → sender ≢ recipient
      → req.amount ≤ (account_at s.accounts sender).balance
      → circulating s.accounts < u64_mod
      → other ≢ sender
      → other ≢ recipient
      → let after = (move_funds env req key s).accounts in
        ((account_at after sender).balance + req.amount ≡ (account_at s.accounts sender).balance)
        × ((account_at after recipient).balance
            ≡ (account_at s.accounts recipient).balance + req.amount)
        × ((account_at after sender).nonce ≡ add64 (account_at s.accounts sender).nonce 1)
        × (account_at after other ≡ account_at s.accounts other)
  unfolding move_funds holdings
  move_funds_effect key s other ne covered fits os ot =
      rw (account_locked-normalized s req.from, account_locked-normalized s req.to)
        (simp
          (
            account_at-insert_self,
            account_at-insert_ne _ _ _ _ (λ e. ne (sym e)),
            account_at-insert_ne _ _ _ _ (λ e. ot (sym e)),
            account_at-insert_ne _ _ _ _ (λ e. os (sym e)),
          )
          (ground (arith, holdings_two-le-circulating sender recipient s.accounts ne)))

  -- An accepted transfer conserves what all accounts hold together, as long as that is a uint64; it
  -- takes the amount from the sender, gives it to the recipient, advances the sender's nonce by one
  -- and leaves every other account as it was.
  pub transfer_moves_funds :
      (recovered : Option String) (signed : Bool) (s s' : State) (other : String)
      → req.amount < u64_mod
      → req.fee < u64_mod
      → circulating s.accounts < u64_mod
      → other ≢ sender
      → other ≢ recipient
      → apply_transfer env req recovered signed s ≡ ok s'
      → (circulating s'.accounts ≡ circulating s.accounts)
        × ((account_at s'.accounts sender).balance + req.amount
            ≡ (account_at s.accounts sender).balance)
        × ((account_at s'.accounts recipient).balance
            ≡ (account_at s.accounts recipient).balance + req.amount)
        × ((account_at s'.accounts sender).nonce ≡ add64 req.nonce 1)
        × (account_at s'.accounts other ≡ account_at s.accounts other)
  unfolding move_funds holdings
  transfer_moves_funds recovered signed s s' other ha hf fits os ot h =
      let (ne, nonce, covered, after) = apply_transfer-ok recovered signed s s' ha hf h in
      let paid : req.amount ≤ (account_at s.accounts sender).balance = omega arith in
      let key = key_of recovered in
      let (debit, credit, bumped, same) = move_funds_effect key s other ne paid fits os ot in
      rw (after, nonce) (move_funds-circulating key s ne paid fits, debit, credit, bumped, same)
