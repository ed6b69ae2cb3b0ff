-- ===== src/FeeMarket/Charging.antt =====
-- The charge of a transaction's fee.
use falari.Prelude.{
  ℕ, ◌+◌, ◌-◌, ◌≤◌, ◌<◌, String, true, ◌||◌, ◌≡◌, ◌≢◌, ◌⊎◌, ◌==◌, if◌then◌else◌, str_eq, eq_iff,
  eq_refl, ok, sym, refl, ap, inl, inr, Bool-cases, arith,
}
use falari.Arith.{u64_mod, add64}
use falari.Dict.{insert, has}
use falari.Dict.Laws.{str_ne-of-false, lookup-insert_self}
use falari.Env.{Env, normalize_address, normalize_address_idempotent}
use falari.State.{State}
use falari.Accounts.{account_at, account_locked}
use falari.Accounts.Funds.{
  holdings, circulating, circulating-debit_add64, IsKeyed, IsKeyed-insert, account_at-insert_self,
  account_at-insert_ne, holdings-le-circulating, holdings_two-le-circulating,
}
use falari.FeeMarket.{Transaction, move_fee, charge_transaction_fee}

module _ (env : Env) where
  move_fee-circulating :
      (payer producer : String) (fee : ℕ) (s : State)
      → IsKeyed s.accounts
      → circulating s.accounts < u64_mod
      → fee ≤ (account_locked env s (normalize_address env payer)).balance
      → circulating (move_fee env (normalize_address env payer) producer fee s).accounts
        ≡ circulating s.accounts
  unfolding move_fee account_locked
  move_fee-circulating payer producer fee s keyed fits covered =
      let paid : fee ≤ (account_at s.accounts (normalize_address env payer)).balance =
        rw (normalize_address_idempotent env payer) at covered in
      rw (normalize_address_idempotent env payer) (
        circulating-debit_add64 (normalize_address env producer) _ fee s.accounts keyed fits
          (rw (keyed (normalize_address env payer)) (unfold holdings in omega arith)))

  -- The two writes take the fee from the payer and give it to the producer.
  move_fee_effect :
      (payer producer_address other : String) (fee : ℕ) (s : State)
      → let p = normalize_address env payer in
        let q = normalize_address env producer_address in
        let after = (move_fee env p producer_address fee s).accounts in
        let due = if str_eq p q then 0 else fee in
        IsKeyed s.accounts
        → circulating s.accounts < u64_mod
        → other ≢ p
        → other ≢ q
        → fee ≤ (account_at s.accounts p).balance
        → ((account_at after p).balance + due ≡ (account_at s.accounts p).balance)
          × ((account_at after q).balance ≡ (account_at s.accounts q).balance + due)
          × (account_at after other ≡ account_at s.accounts other)
  unfolding move_fee account_locked holdings
  move_fee_effect payer producer_address other fee s keyed fits op oq covered =
      let p = normalize_address env payer in
      let q = normalize_address env producer_address in
      let acct = account_at s.accounts p in
      let debited = record acct { address = p; balance = acct.balance - fee } in
      let written = record acct { balance = acct.balance - fee } in
      let s1 = insert p debited s.accounts in
      let keyed1 : IsKeyed (insert acct.address written s.accounts) =
        IsKeyed-insert acct.address written s.accounts refl keyed in
      let reader = account_at s1 q in
      let credited = record reader { address = q; balance = add64 reader.balance fee } in
      rw (normalize_address_idempotent env payer, keyed1 q, keyed p)
        (elim (Bool-cases (str_eq p q)) [
          | inl one ↦
              let e : p ≡ q = (eq_iff p q).0 one in
              ground (
                arith,
                one,
                e,
                keyed p,
                ap (λ (k : String). account_at s1 k) e,
                account_at-insert_self p debited s.accounts,
                account_at-insert_self q credited s1,
                account_at-insert_ne q other credited s1 (λ h. oq (sym h)),
                account_at-insert_ne p other debited s.accounts (λ h. op (sym h)),
                ap (λ (k : String). account_at (insert q credited s1) k) e,
                ap (λ (k : String). (account_at s.accounts k).balance) e,
                holdings-le-circulating p s.accounts,
              )
          | inr two ↦
              let ne : p ≢ q = str_ne-of-false p q two in
              ground (
                arith,
                two,
                account_at-insert_self p debited s.accounts,
                account_at-insert_ne p q debited s.accounts ne,
                account_at-insert_self q credited s1,
                account_at-insert_ne q p credited s1 (λ h. ne (sym h)),
                account_at-insert_ne q other credited s1 (λ h. oq (sym h)),
                account_at-insert_ne p other debited s.accounts (λ h. op (sym h)),
                holdings_two-le-circulating p q s.accounts ne,
              )
        ])

  -- A charge takes the fee from the payer and gives it to the producer, changes no other account
  -- and keeps what all accounts hold together; nothing moves for a fee of zero, a transaction that
  -- has been charged before, or a payer that is the producer itself. A fee that is not zero is marked
  -- as charged afterwards. It holds as long as the sum over all accounts is a uint64 and every
  -- account is stored under its own address.
  pub charge_transaction_fee_moves :
      (tx : Transaction) (producer_address other : String) (s s' : State)
      → let payer = normalize_address env tx.from in
        let producer = normalize_address env producer_address in
        let due =
          if (tx.fee == 0 || has tx.tx_id s.fee_charged_txs) || str_eq payer producer
          then 0
          else tx.fee in
        IsKeyed s.accounts
        → circulating s.accounts < u64_mod
        → other ≢ payer
        → other ≢ producer
        → charge_transaction_fee env tx producer_address s ≡ ok s'
        → (circulating s'.accounts ≡ circulating s.accounts)
          × ((account_at s'.accounts payer).balance + due ≡ (account_at s.accounts payer).balance)
          × ((account_at s'.accounts producer).balance
              ≡ (account_at s.accounts producer).balance + due)
          × (account_at s'.accounts other ≡ account_at s.accounts other)
          × ((tx.fee ≡ 0) ⊎ (has tx.tx_id s'.fee_charged_txs ≡ true))
  unfolding charge_transaction_fee account_locked
  charge_transaction_fee_moves tx producer_address other s s' keyed fits op oq h = ground (
    arith,
    normalize_address_idempotent env tx.from,
    eq_iff (normalize_address env tx.from) producer_address,
    eq_refl (normalize_address env tx.from),
    lookup-insert_self tx.tx_id true s.fee_charged_txs,
    lookup-insert_self tx.tx_id true
        (move_fee env (normalize_address env tx.from) producer_address tx.fee s).fee_charged_txs,
    move_fee-circulating tx.from producer_address tx.fee s keyed fits,
    move_fee_effect tx.from producer_address other tx.fee s keyed fits op oq,
  )

  -- A fee is charged at most once: charging a transaction again, for whatever producer, changes
  -- nothing.
  pub charge_transaction_fee_once :
      (tx : Transaction) (producer_address again : String) (s s' : State)
      → charge_transaction_fee env tx producer_address s ≡ ok s'
      → charge_transaction_fee env tx again s' ≡ ok s'
  unfolding charge_transaction_fee
  charge_transaction_fee_once tx producer_address again s s' h = ground (
    arith,
    lookup-insert_self tx.tx_id true s.fee_charged_txs,
    lookup-insert_self tx.tx_id true
        (move_fee env (normalize_address env tx.from) producer_address tx.fee s).fee_charged_txs,
  )
