-- ===== src/Multisig/Money.antt =====
-- What a multisig wallet's payments do to the accounts.
use falari.Prelude.{ℕ, ◌+◌, ◌-◌, ◌≤◌, ◌<◌, String, ◌≡◌, ◌≢◌, ◌∙◌, sym, ok, ap, arith}
use falari.Arith.{u64_mod, add64}
use falari.Arith.Bounds.{overflow_checks_agree}
use falari.Dict.{insert}
use falari.Types.{MultisigWallet}
use falari.Env.{Env, normalize_address, normalize_address_idempotent}
use falari.State.{State}
use falari.Accounts.{account_at, account_locked}
use falari.Accounts.Funds.{
  holdings, circulating, holdings-le-circulating, circulating-insert, circulating-insert_two,
  holdings-insert_self, holdings_two-le-circulating,
}
use falari.Multisig.{MultisigTransfer}
use falari.Multisig.Execution.{exec_transfer, transfer_writes}

module _ (env : Env) (wallet : MultisigWallet)
    (stable : normalize_address env wallet.address ≡ wallet.address) where
  exec_transfer-ok :
      (inner : MultisigTransfer) (fee : ℕ) (s s' : State)
      → inner.amount < u64_mod
      → fee < u64_mod
      → exec_transfer env inner fee wallet s ≡ ok s'
      → (inner.amount + fee ≤ (account_at s.accounts wallet.address).balance)
        × (s'
            ≡ transfer_writes env
                (normalize_address env inner.to)
                inner.amount
                (inner.amount + fee)
                wallet
                s)
  unfolding exec_transfer account_locked
  exec_transfer-ok inner fee s s' ha hf h =
      ground (arith, stable, (overflow_checks_agree inner.amount fee ha hf).0)

  transfer_writes-other :
      (to : String) (amount total : ℕ) (s : State)
      → normalize_address env to ≡ to
      → to ≢ wallet.address
      → amount ≤ total
      → total ≤ (account_at s.accounts wallet.address).balance
      → circulating s.accounts < u64_mod
      → circulating (transfer_writes env to amount total wallet s).accounts + total
        ≡ circulating s.accounts + amount
  unfolding account_locked holdings
  transfer_writes-other to amount total s normal ne part covered fits =
      rw (stable, normal)
        (omega (
          arith,
          circulating-insert_two wallet.address to
              (record (account_at s.accounts wallet.address) {
                balance = (account_at s.accounts wallet.address).balance - total;
              })
              (record (account_at s.accounts to) {
                balance = add64 (account_at s.accounts to).balance amount;
              })
              s.accounts (λ e. ne (sym e)),
          holdings_two-le-circulating wallet.address to s.accounts (λ e. ne (sym e)),
        ))

  transfer_writes_to_itself :
      (amount total : ℕ) (s : State)
      → circulating s.accounts + amount < u64_mod
      → circulating (transfer_writes env wallet.address amount total wallet s).accounts
        ≡ circulating s.accounts + amount
  unfolding account_locked holdings
  transfer_writes_to_itself amount total s fits =
      let old = account_at s.accounts wallet.address in
      let debited = record old { balance = old.balance - total } in
      rw (stable) (
        omega (
          arith,
          circulating-insert wallet.address debited s.accounts,
          holdings-insert_self wallet.address debited s.accounts,
          circulating-insert wallet.address (record old { balance = add64 old.balance amount })
              (insert wallet.address debited s.accounts),
          holdings-le-circulating wallet.address s.accounts,
        ))

  -- A payment to another account takes amount and fee from the wallet and gives the recipient the
  -- amount: what all accounts own falls by the fee alone. It holds for uint64 numbers, where the sum
  -- over all accounts is one, and the wallet's address is normalised.
  pub exec_transfer-circulating :
      (inner : MultisigTransfer) (fee : ℕ) (s s' : State)
      → inner.amount < u64_mod
      → fee < u64_mod
      → circulating s.accounts < u64_mod
      → normalize_address env inner.to ≢ wallet.address
      → exec_transfer env inner fee wallet s ≡ ok s'
      → circulating s'.accounts + fee ≡ circulating s.accounts
  exec_transfer-circulating inner fee s s' ha hf fits ne h =
      let (covered, after) = exec_transfer-ok inner fee s s' ha hf h in
      omega (
        arith,
        ap (λ (t : State). circulating t.accounts) after,
        transfer_writes-other (normalize_address env inner.to) inner.amount (inner.amount + fee) s
            (normalize_address_idempotent env inner.to) ne (omega arith) covered fits,
      )

  -- A payment of the wallet to itself makes money: the account as it was read is credited and
  -- overwrites the debit, so all accounts together own the amount more, and no fee is taken. It
  -- holds for uint64 numbers, where the sum with the amount is one, and the wallet's address is
  -- normalised.
  pub exec_transfer_to_itself :
      (inner : MultisigTransfer) (fee : ℕ) (s s' : State)
      → inner.amount < u64_mod
      → fee < u64_mod
      → circulating s.accounts + inner.amount < u64_mod
      → normalize_address env inner.to ≡ wallet.address
      → exec_transfer env inner fee wallet s ≡ ok s'
      → circulating s'.accounts ≡ circulating s.accounts + inner.amount
  exec_transfer_to_itself inner fee s s' ha hf fits same h =
      let (covered, after) = exec_transfer-ok inner fee s s' ha hf h in
      let after' : s'
          ≡ transfer_writes env wallet.address inner.amount (inner.amount + fee) wallet s =
        after
        ∙ ap (λ (to : String). transfer_writes env to inner.amount (inner.amount + fee) wallet s)
            same in
      ap (λ (t : State). circulating t.accounts) after'
      ∙ transfer_writes_to_itself inner.amount (inner.amount + fee) s fits
