-- ===== src/Multisig/Batch.antt =====
-- What a batch of payments does to the accounts.
use falari.Prelude.{
  ℕ, ◌+◌, ◌-◌, ◌*◌, ◌≤◌, ◌<◌, List, [], ◌∷◌, ◌≡◌, ◌≢◌, ◌∙◌, refl, inl, inr, ok, Result-cases, All,
  sum_by, ap, arith,
}
use falari.Arith.{u64_mod, add64}
use falari.Arith.Bounds.{overflow_checks_agree}
use falari.Dict.{insert}
use falari.Types.{MultisigWallet}
use falari.Env.{Env, normalize_address, normalize_address_idempotent}
use falari.State.{State}
use falari.Accounts.{account_at, account_locked}
use falari.Accounts.Funds.{
  holdings, circulating, holdings-le-circulating, circulating-insert, account_at-insert_ne,
}
use falari.Multisig.{MultisigTransfer}
use falari.Multisig.Execution.{exec_batch, batch_total, pay_all, pay}

module _ (env : Env) (wallet : MultisigWallet)
    (stable : normalize_address env wallet.address ≡ wallet.address) where
  -- Every recipient is another account.
  abbrev pub Elsewhere : MultisigTransfer → Type 0
  Elsewhere t = normalize_address env t.to ≢ wallet.address

  abbrev pub amounts : List MultisigTransfer → ℕ
  amounts ts = sum_by (λ (t : MultisigTransfer). t.amount) ts

  -- The first loop computes the exact sum, or fails.
  batch_total-ok :
      (total n : ℕ) (ts : List MultisigTransfer)
      → total < u64_mod
      → All (λ (t : MultisigTransfer). t.amount < u64_mod) ts
      → batch_total env total ts ≡ ok n
      → n ≡ total + amounts ts
  unfolding batch_total
  batch_total-ok total n [] fits small h = ground arith
  batch_total-ok total n (t ∷ rest) fits (here, later) h =
      elim (Result-cases (batch_total env (add64 total t.amount) rest)) [
        | inl (m, e) ↦
            ground (arith, e, batch_total-ok (add64 total t.amount) m rest (omega arith) later e)
        | inr (_, e) ↦ absurd (ground (arith, e))
      ]

  batch_total-lt :
      (total n : ℕ) (ts : List MultisigTransfer)
      → total < u64_mod
      → batch_total env total ts ≡ ok n
      → n < u64_mod
  unfolding batch_total
  batch_total-lt total n [] fits h = ground arith
  batch_total-lt total n (t ∷ rest) fits h =
      elim (Result-cases (batch_total env (add64 total t.amount) rest)) [
        | inl (m, e) ↦
            ground (arith, e, batch_total-lt (add64 total t.amount) m rest (omega arith) e)
        | inr (_, e) ↦ absurd (ground (arith, e))
      ]

  pay-pays :
      (t : MultisigTransfer) (s : State)
      → Elsewhere t
      → circulating s.accounts + t.amount < u64_mod
      → let s' = pay env (normalize_address env t.to) t.amount s in
        (circulating s'.accounts ≡ circulating s.accounts + t.amount)
        × (account_at s'.accounts wallet.address ≡ account_at s.accounts wallet.address)
  unfolding account_locked holdings
  pay-pays t s here fits =
      let to = normalize_address env t.to in
      let paid = record (account_at s.accounts to) {
        balance = add64 (account_at s.accounts to).balance t.amount;
      } in
      rw (normalize_address_idempotent env t.to) (
        omega (arith, circulating-insert to paid s.accounts, holdings-le-circulating to s.accounts),
        account_at-insert_ne to wallet.address paid s.accounts here,
      )

  pay_all-pays :
      (ts : List MultisigTransfer) (s : State)
      → All Elsewhere ts
      → circulating s.accounts + amounts ts < u64_mod
      → (circulating (pay_all env ts s).accounts ≡ circulating s.accounts + amounts ts)
        × (account_at (pay_all env ts s).accounts wallet.address
            ≡ account_at s.accounts wallet.address)
  unfolding pay_all
  pay_all-pays [] s elsewhere fits = (omega arith, refl)
  pay_all-pays (t ∷ rest) s (here, later) fits =
      let s1 = pay env (normalize_address env t.to) t.amount s in
      let one = pay-pays t s here (omega arith) in
      let (sum, same) = pay_all-pays rest s1 later (omega (arith, one.0)) in
      (omega (arith, sum, one.0), same ∙ one.1)

  exec_batch-ok :
      (ts : List MultisigTransfer) (fee : ℕ) (s s' : State)
      → All (λ (t : MultisigTransfer). t.amount < u64_mod) ts
      → fee < u64_mod
      → exec_batch env ts fee wallet s ≡ ok s'
      → let old = account_at s.accounts wallet.address in
        let debited = record old { balance = old.balance - (amounts ts + fee) } in
        (amounts ts + fee ≤ old.balance)
        × (s'.accounts ≡ insert wallet.address debited (pay_all env ts s).accounts)
  unfolding exec_batch account_locked
  exec_batch-ok [] fee s s' small hf h = absurd (ground arith)
  exec_batch-ok (t ∷ rest) fee s s' small hf h =
      elim (Result-cases (batch_total env 0 (t ∷ rest))) [
        | inl (n, e) ↦
            (let exact = batch_total-ok 0 n (t ∷ rest) (omega arith) small e in
              ground (
                arith,
                stable,
                e,
                exact,
                (overflow_checks_agree n fee (batch_total-lt 0 n (t ∷ rest) (omega arith) e) hf).0,
              ))
        | inr (_, e) ↦ absurd (ground (arith, e))
      ]

  -- A batch that pays other accounts only takes the sum of its amounts and the fee from the wallet and
  -- gives each recipient its amount, also where one occurs more than once: what all accounts own
  -- falls by the fee alone. It holds for uint64 numbers, where twice the sum over all accounts is
  -- one, and the wallet's address is normalised.
  pub exec_batch-circulating :
      (ts : List MultisigTransfer) (fee : ℕ) (s s' : State)
      → All (λ (t : MultisigTransfer). t.amount < u64_mod) ts
      → fee < u64_mod
      → 2 * circulating s.accounts < u64_mod
      → All Elsewhere ts
      → exec_batch env ts fee wallet s ≡ ok s'
      → circulating s'.accounts + fee ≡ circulating s.accounts
  unfolding holdings
  exec_batch-circulating ts fee s s' small hf fits elsewhere h =
      let old = account_at s.accounts wallet.address in
      let (covered, after) = exec_batch-ok ts fee s s' small hf h in
      let held = holdings-le-circulating wallet.address s.accounts in
      let (sum, same) = pay_all-pays ts s elsewhere (omega (arith, covered, held)) in
      omega (
        arith,
        ap circulating after,
        sum,
        ap holdings same,
        held,
        covered,
        circulating-insert wallet.address
            (record old { balance = old.balance - (amounts ts + fee) }) (pay_all env ts s).accounts,
      )
