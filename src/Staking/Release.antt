-- ===== src/Staking/Release.antt =====
-- The release of matured unbonding entries (processMaturedUnbondingEntriesLocked).
use falari.Prelude.{
  ℕ, ◌+◌, ◌-◌, ◌≤◌, ◌<◌, String, ◌≡◌, ◌∙◌, refl, inl, inr, ap, str_eq, eq_iff, if◌then◌else◌,
  Bool-cases, [], ◌∷◌, All, arith, eq_refl, ltb→lt, ltb, leb,
}
use falari.Arith.{u64_mod, add64}
use falari.Dict.{Dict, insert, total}
use falari.Dict.Laws.{str_ne-of-false}
use falari.Types.{Account, UnbondingEntry}
use falari.Env.{Env, normalize_address}
use falari.State.{State}
use falari.Accounts.{account_at, account_locked}
use falari.Accounts.Funds.{
  holdings, circulating, circulating-insert, holdings-le-circulating, IsKeyed, IsKeyed-insert,
  account_at-insert_self, account_at-insert_ne,
}
use falari.Staking.Maturity.{release_entry, release_entries, process_matured_unbonding_entries}

-- What the entries of an account add up to.
abbrev pub owed_by : String → UnbondingEntry → ℕ
owed_by k e = if str_eq e.delegator k then e.amount else 0

abbrev pub owed : String → Dict UnbondingEntry → ℕ
owed k entries = total (owed_by k) entries

-- Every account has set aside what its entries add up to.
abbrev pub Covers : Dict UnbondingEntry → Dict Account → Type 0
Covers entries accounts = (k : String) → owed k entries ≤ (account_at accounts k).unbonding_balance

module _ (env : Env) where
  -- The entry is filed under a normalised address.
  abbrev pub IsNormal : String × UnbondingEntry → Type 0
  IsNormal (_, e) = normalize_address env e.delegator ≡ e.delegator

  module _ (e : UnbondingEntry) (s : State)
      (normal : normalize_address env e.delegator ≡ e.delegator) (keyed : IsKeyed s.accounts) where
    abbrev released : Account
    released =
        let account = account_at s.accounts e.delegator in
        record account {
          unbonding_balance =
              if leb e.amount account.unbonding_balance
              then account.unbonding_balance - e.amount
              else 0;
          balance = add64 account.balance e.amount;
        }

    release_entry-IsKeyed : IsKeyed (release_entry env e s).accounts
    unfolding release_entry account_locked
    release_entry-IsKeyed =
        rw normal (IsKeyed-insert e.delegator _ s.accounts (rw (keyed e.delegator)) keyed)

    release_entry-unbonding :
        (k : String)
        → e.amount ≤ (account_at s.accounts e.delegator).unbonding_balance
        → (account_at (release_entry env e s).accounts k).unbonding_balance + owed_by k e
          ≡ (account_at s.accounts k).unbonding_balance
    unfolding release_entry account_locked
    release_entry-unbonding k covered = elim (Bool-cases (str_eq e.delegator k)) [
      | inl same ↦
          (let p = (eq_iff e.delegator k).0 same in
            rw normal (
              ground (
                arith,
                same,
                ap
                    (λ (j : String).
                      (account_at (insert e.delegator released s.accounts) j).unbonding_balance)
                    p,
                ap (λ (j : String). (account_at s.accounts j).unbonding_balance) p,
                ap (λ (a : Account). a.unbonding_balance)
                    (account_at-insert_self e.delegator released s.accounts),
              )))
      | inr other ↦
          rw
            (
              normal,
              account_at-insert_ne e.delegator k released s.accounts
                  (str_ne-of-false e.delegator k other),
            )
            (ground (arith, other))
    ]

    release_entry-circulating :
        circulating s.accounts < u64_mod
        → e.amount ≤ (account_at s.accounts e.delegator).unbonding_balance
        → circulating (release_entry env e s).accounts ≡ circulating s.accounts
    unfolding release_entry account_locked holdings
    release_entry-circulating fits covered = rw normal (
        ground (
          arith,
          holdings-le-circulating e.delegator s.accounts,
          circulating-insert e.delegator released s.accounts,
        ))

  -- What the loop keeps is what has not matured; what it releases leaves the unbonding balances by
  -- the amounts that the entries say, and no account gains or loses in sum.
  release_entries-keeps :
      (now : ℕ) (entries : Dict UnbondingEntry) (s : State)
      → All IsNormal entries
      → IsKeyed s.accounts
      → circulating s.accounts < u64_mod
      → Covers entries s.accounts
      → let (s', kept) = release_entries env now entries s in
        IsKeyed s'.accounts
        × (circulating s'.accounts ≡ circulating s.accounts)
        × ((k : String)
            → (account_at s'.accounts k).unbonding_balance + owed k entries
              ≡ (account_at s.accounts k).unbonding_balance + owed k kept)
        × All (λ (e : String × UnbondingEntry). now < e.1.matures_at_unix) kept
  unfolding release_entries
  release_entries-keeps now [] s normal keyed fits covers = (keyed, refl, λ k. refl, tt)
  release_entries-keeps now ((id, e) ∷ rest) s (here, later) keyed fits covers =
      elim (Bool-cases (ltb now e.matures_at_unix)) [
        | inl early ↦
            (let (keyed', sum, owes, late) =
                release_entries-keeps now rest s later keyed fits (λ k. omega (arith, covers k)) in
              rw (release_entries, early)
                (
                  keyed',
                  sum,
                  λ k. omega (arith, owes k),
                  (ltb→lt now e.matures_at_unix early, late),
                ))
        | inr matured ↦
            (let s1 = release_entry env e s in
              let covered : e.amount ≤ (account_at s.accounts e.delegator).unbonding_balance =
                ground (arith, covers e.delegator, eq_refl e.delegator) in
              let moved = release_entry-circulating e s here keyed fits covered in
              let left = λ (k : String). release_entry-unbonding e s here keyed k covered in
              let (keyed', sum, owes, late) =
                release_entries-keeps now rest s1 later (release_entry-IsKeyed e s here keyed)
                  (rw moved fits) (λ k. omega (arith, covers k, left k)) in
              rw (release_entries, matured)
                (keyed', sum ∙ moved, λ k. omega (arith, owes k, left k), late))
      ]

  -- The release of matured entries at a block time: nobody gains or loses in sum, every account still
  -- has set aside what its entries add up to, and the entries that are left have not matured. It
  -- holds where the entries are filed under normalised addresses, every account under its own, the
  -- sum is a uint64 and every account has set aside what its entries add up to.
  pub process_matured_unbonding_entries-keeps :
      (now : ℕ) (s : State)
      → All IsNormal s.unbonding_entries
      → IsKeyed s.accounts
      → circulating s.accounts < u64_mod
      → Covers s.unbonding_entries s.accounts
      → let s' = process_matured_unbonding_entries env now s in
        (circulating s'.accounts ≡ circulating s.accounts)
        × Covers s'.unbonding_entries s'.accounts
        × All (λ (e : String × UnbondingEntry). now < e.1.matures_at_unix) s'.unbonding_entries
  unfolding process_matured_unbonding_entries
  process_matured_unbonding_entries-keeps now s normal keyed fits covers =
      let (_, sum, owes, late) =
        release_entries-keeps now s.unbonding_entries s normal keyed fits covers in
      (sum, λ k. omega (arith, owes k, covers k), late)
