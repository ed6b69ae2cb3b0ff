-- ===== src/Accounts/Funds.antt =====
-- What the accounts hold in sum, and how one write of an account changes it.
use falari.Prelude.{refl, ◌<◌, eq_iff, ℕ, ◌+◌, ◌≤◌, String, ◌≡◌, ◌≢◌, ap, arith}
use falari.Arith.{u64_mod, add64}
use falari.Dict.{Dict, lookup, insert, value_of, total}
use falari.Dict.Laws.{
  lookup-insert, lookup-insert_self, lookup-insert_ne, total-insert, value_of-le-total,
}
use falari.Types.{Account}
use falari.Accounts.{account_at, empty_account, with_address}

-- All that an account owns: free, staked, locked for storage, unbonding, and vesting.
unfoldable pub holdings : Account → ℕ
holdings a =
    a.balance + a.locked_stake + a.locked_storage + a.unbonding_balance + a.pending_mining_rewards

-- The sum over all accounts.
abbrev pub circulating : Dict Account → ℕ
circulating accounts = total holdings accounts

pub holdings-account_at :
    (k : String) (accounts : Dict Account)
    → holdings (account_at accounts k) ≡ value_of holdings (lookup k accounts)
unfolding account_at holdings
holdings-account_at k accounts = ground arith

pub holdings-le-circulating :
    (k : String) (accounts : Dict Account) → holdings (account_at accounts k) ≤ circulating accounts
holdings-le-circulating k accounts =
    omega (arith, holdings-account_at k accounts, value_of-le-total holdings k accounts)

pub circulating-insert :
    (k : String) (a : Account) (accounts : Dict Account)
    → circulating (insert k a accounts) + holdings (account_at accounts k)
      ≡ circulating accounts + holdings a
circulating-insert k a accounts =
    omega (arith, holdings-account_at k accounts, total-insert holdings k a accounts)

-- A write of one key is read back, up to the key that fills an empty address.
pub account_at-insert_self :
    (k : String) (a : Account) (accounts : Dict Account)
    → account_at (insert k a accounts) k ≡ with_address k a
unfolding account_at
account_at-insert_self k a accounts = rw (lookup-insert_self k a accounts, account_at)

pub account_at-insert_ne :
    (k j : String) (a : Account) (accounts : Dict Account)
    → k ≢ j
    → account_at (insert k a accounts) j ≡ account_at accounts j
unfolding account_at
account_at-insert_ne k j a accounts h = rw (lookup-insert_ne k j a accounts h, account_at)

pub holdings-insert_self :
    (k : String) (a : Account) (accounts : Dict Account)
    → holdings (account_at (insert k a accounts) k) ≡ holdings a
unfolding holdings
holdings-insert_self k a accounts = ground (arith, account_at-insert_self k a accounts)

-- Two writes under different keys add up.
pub circulating-insert_two :
    (j k : String) (a b : Account) (accounts : Dict Account)
    → j ≢ k
    → circulating (insert k b (insert j a accounts))
        + holdings (account_at accounts j)
        + holdings (account_at accounts k)
      ≡ circulating accounts + holdings a + holdings b
circulating-insert_two j k a b accounts h = omega (
  arith,
  circulating-insert k b (insert j a accounts),
  circulating-insert j a accounts,
  ap holdings (account_at-insert_ne j k a accounts h),
)

-- Every account is stored under its own address.
abbrev pub IsKeyed : Dict Account → Type 0
IsKeyed accounts = (k : String) → (account_at accounts k).address ≡ k

pub holdings_two-le-circulating :
    (j k : String) (accounts : Dict Account)
    → j ≢ k
    → holdings (account_at accounts j) + holdings (account_at accounts k) ≤ circulating accounts
unfolding holdings
holdings_two-le-circulating j k accounts h =
    omega (arith, circulating-insert_two j k (empty_account j) (empty_account k) accounts h)

-- Writes under two different keys that move an amount from one account to the other.
pub circulating-move :
    (j k : String) (a b : Account) (amount : ℕ) (accounts : Dict Account)
    → j ≢ k
    → holdings a + amount ≡ holdings (account_at accounts j)
    → holdings b ≡ holdings (account_at accounts k) + amount
    → circulating (insert k b (insert j a accounts)) ≡ circulating accounts
circulating-move j k a b amount accounts ne ha hb =
    omega (arith, circulating-insert_two j k a b accounts ne)

-- A write under the account's own address keeps it so.
pub IsKeyed-insert :
    (k : String) (a : Account) (accounts : Dict Account)
    → a.address ≡ k
    → IsKeyed accounts
    → IsKeyed (insert k a accounts)
unfolding account_at
IsKeyed-insert k a accounts same keyed j =
    ground (arith, eq_iff k j, lookup-insert k j a accounts, keyed j)

-- A debit of one account, then a credit of an account as it is after that.
pub circulating-debit_credit :
    (j k : String) (a b : Account) (amount : ℕ) (accounts : Dict Account)
    → holdings a + amount ≡ holdings (account_at accounts j)
    → holdings b ≡ holdings (account_at (insert j a accounts) k) + amount
    → circulating (insert k b (insert j a accounts)) ≡ circulating accounts
circulating-debit_credit j k a b amount accounts ha hb =
    omega (arith, circulating-insert k b (insert j a accounts), circulating-insert j a accounts)

-- A debited account written under its own address, then the credit of another.
module _ (k : String) (a : Account) (amount : ℕ) (accounts : Dict Account) where
  abbrev debited : Dict Account
  debited = insert a.address a accounts

  abbrev receiver : Account
  receiver = account_at debited k

  -- The credit fits in 64 bits where the sum over all accounts does.
  pub circulating-debit_add64 :
      IsKeyed accounts
      → circulating accounts < u64_mod
      → holdings a + amount ≡ holdings (account_at accounts a.address)
      → circulating (
          insert receiver.address
            (record receiver { balance = add64 receiver.balance amount })
            debited)
        ≡ circulating accounts
  unfolding holdings
  circulating-debit_add64 keyed fits paid = rw (IsKeyed-insert a.address a accounts refl keyed k) (
      circulating-debit_credit a.address k a _ amount accounts paid
        (omega (arith, holdings-le-circulating k debited, circulating-insert a.address a accounts)))
