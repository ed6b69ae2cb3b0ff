-- ===== src/TokenRelease/Shares.antt =====
-- What each account gets of what is paid to a validator's delegators (distributeValidatorRewardLocked
-- in internal/chain/token_release.go).
use falari.Prelude.{
  ◌∙◌, refl, ℕ, zero, suc, ◌+◌, ◌-◌, ◌*◌, ◌/◌, ◌≤◌, ◌<◌, String, ◌≡◌, ◌≢◌, inl, inr, List, [], ◌∷◌,
  sum_by, ◌==◌, if◌then◌else◌, Bool-cases, str_eq, eq_iff, arith,
}
use native.Mathlib.Nat.{le_of_mul-le-mul_right, div-mul-le_self, mul-le-mul_left}
use falari.Arith.{u64_mod, saturating_add, mul_div_uint64}
use falari.Arith.Bounds.{saturating_add_exact}
use falari.Dict.Laws.{str_ne-of-false}
use falari.Dict.{Dict}
use falari.Types.{StakeDelegation}
use falari.Env.{Env, normalize_address, normalize_address_idempotent}
use falari.State.{State}
use falari.Accounts.{account_at, account_locked}
use falari.Accounts.Funds.{
  holdings, circulating, holdings-le-circulating, holdings-insert_self, account_at-insert_ne,
  account_at-insert_self,
}
use falari.Vesting.{vest_mining_reward, vest_writes}
use falari.Vesting.Grant.{vest_if-circulating}
use falari.TokenRelease.Validators.{validator_delegations, delegator_share, pay_delegators}
use falari.TokenRelease.Distribution.{amount_of, Named, paid-le, share_room, no_delegations}

-- What the account under `k` owns.
abbrev pub owned : String → State → ℕ
owned k s = holdings (account_at s.accounts k)

-- A quotient of the whole pool fits in 64 bits.
mul_div_exact :
    (pool a d : ℕ)
    → 0 < d
    → pool * a ≤ pool * d
    → pool < u64_mod
    → mul_div_uint64 pool a 1 d ≡ pool * a / d
unfolding mul_div_uint64
mul_div_exact pool a d pos part small =
    let one : pool * a * 1 ≡ pool * a = omega arith in
    let low : pool * a / d ≤ pool =
      le_of_mul-le-mul_right {k = d} (omega (arith, div-mul-le_self (pool * a) d)) pos in
    ground (arith, one, low)

le-div : (x y d : ℕ) → 0 < d → x ≤ y * d → x / d ≤ y
le-div x y d pos h = le_of_mul-le-mul_right {k = d} (omega (arith, div-mul-le_self x d)) pos

-- The free balance of the account under `k`.
abbrev pub free : String → State → ℕ
free k s = (account_at s.accounts k).balance

module _ (env : Env) where
  -- A grant is owned by its account, and by no other.
  vest_writes-owned :
      (address : String) (amount : ℕ) (source : String) (now : ℕ) (s : State) (k : String)
      → let a = normalize_address env address in
        circulating s.accounts + amount < u64_mod
        → owned k (vest_writes env a amount source now s)
          ≡ owned k s + (if str_eq a k then amount else 0)
  unfolding account_locked holdings
  vest_writes-owned address amount source now s k fits =
      let a = normalize_address env address in
      let old = account_at s.accounts a in
      let new = record old {
        pending_mining_rewards = saturating_add old.pending_mining_rewards amount;
      } in
      rw (normalize_address_idempotent env address) (elim (Bool-cases (str_eq a k)) [
        | inl same ↦
            let e : a ≡ k = (eq_iff a k).0 same in
            rw (same, ← e)
              (omega (
                arith,
                holdings-insert_self a new s.accounts,
                holdings-le-circulating a s.accounts,
                saturating_add_exact old.pending_mining_rewards amount,
              ))
        | inr other ↦
            rw (other, account_at-insert_ne a k new s.accounts (str_ne-of-false a k other))
              (omega arith)
      ])

  pub vest_mining_reward-owned :
      (address : String) (amount : ℕ) (source : String) (now wall : ℕ) (s : State) (k : String)
      → normalize_address env address ≢ ""
      → 0 < now
      → circulating s.accounts + amount < u64_mod
      → owned k (vest_mining_reward env address amount source now wall s)
        ≡ owned k s + (if str_eq (normalize_address env address) k then amount else 0)
  unfolding vest_mining_reward
  vest_mining_reward-owned address amount source now wall s k named timed fits =
      let src = if str_eq source "" then "mining" else source in
      ground (
        arith,
        eq_iff (normalize_address env address) "",
        vest_writes-owned address amount src now s k fits,
      )

  vest_if-owned :
      (address : String) (amount : ℕ) (source : String) (now : ℕ) (s : State) (k : String)
      → normalize_address env address ≢ ""
      → 0 < now
      → circulating s.accounts + amount < u64_mod
      → owned k (if amount == 0 then s else vest_mining_reward env address amount source now now s)
        ≡ owned k s + (if str_eq (normalize_address env address) k then amount else 0)
  vest_if-owned address amount source now s k named timed fits =
      ground (arith, vest_mining_reward-owned address amount source now now s k named timed fits)

  -- A grant leaves every free balance as it is.
  pub vest_mining_reward-free :
      (address : String) (amount : ℕ) (source : String) (now wall : ℕ) (s : State) (k : String)
      → free k (vest_mining_reward env address amount source now wall s) ≡ free k s
  unfolding vest_mining_reward account_locked
  vest_mining_reward-free address amount source now wall s k =
      let a = normalize_address env address in
      let old = account_at s.accounts a in
      let new = record old {
        pending_mining_rewards = saturating_add old.pending_mining_rewards amount;
      } in
      rw (normalize_address_idempotent env address) (elim (Bool-cases (str_eq a k)) [
        | inl same ↦
            let e : a ≡ k = (eq_iff a k).0 same in
            rw (← e) (ground (arith, account_at-insert_self a new s.accounts))
        | inr other ↦
            ground (arith, account_at-insert_ne a k new s.accounts (str_ne-of-false a k other))
      ])

  pub pay_delegators-free :
      (k : String) (pool delegated now : ℕ) (ds : List StakeDelegation) (paid : ℕ) (s : State)
      → free k (pay_delegators env pool delegated now ds paid s).0 ≡ free k s
  unfolding pay_delegators
  pay_delegators-free k pool delegated now [] paid s = refl
  pay_delegators-free k pool delegated now (d ∷ rest) paid s =
      let share = delegator_share pool delegated paid d rest in
      let s1 =
        if share == 0
        then s
        else vest_mining_reward env d.delegator share "validator_delegation" now now s in
      let one : free k s1 ≡ free k s =
        ground
          (arith, vest_mining_reward-free d.delegator share "validator_delegation" now now s k) in
      pay_delegators-free k pool delegated now rest
        (if share == 0 then paid else saturating_add paid share) s1
      ∙ one

  -- The part of a pool that a delegation's own share of the stake makes, if its delegator is `k`.
  abbrev pub share_of : String → ℕ → ℕ → StakeDelegation → ℕ
  share_of k pool delegated d =
      if str_eq (normalize_address env d.delegator) k then pool * d.amount / delegated else 0

  -- Neither the share nor the remainder that the last one gets falls short of that part.
  share-ge :
      (pool delegated paid : ℕ) (d : StakeDelegation) (rest : List StakeDelegation)
      → 0 < delegated
      → pool < u64_mod
      → paid * delegated + pool * sum_by amount_of (d ∷ rest) ≤ pool * delegated
      → pool * d.amount / delegated ≤ delegator_share pool delegated paid d rest
  share-ge pool delegated paid d rest some_stake small room =
      let left : paid * delegated + pool * d.amount ≤ pool * delegated = grind arith in
      let bound = paid-le paid pool delegated 0 some_stake (omega (arith, left)) in
      let exact = mul_div_exact pool d.amount delegated some_stake (omega (arith, left)) small in
      let remainder : pool * d.amount / delegated ≤ pool - paid =
        le-div (pool * d.amount) (pool - paid) delegated some_stake (grind (arith, left)) in
      ground (arith, exact, remainder, some_stake)

  -- Every account grows by its shares at least, whoever else is paid.
  pay_delegators-owned :
      (k : String) (pool delegated now : ℕ) (ds : List StakeDelegation) (paid : ℕ) (s : State)
      → 0 < now
      → 0 < delegated
      → Named env ds
      → paid * delegated + pool * sum_by amount_of ds ≤ pool * delegated
      → circulating s.accounts + (pool - paid) < u64_mod
      → pool < u64_mod
      → owned k s + sum_by (share_of k pool delegated) ds
        ≤ owned k (pay_delegators env pool delegated now ds paid s).0
  unfolding pay_delegators
  pay_delegators-owned k pool delegated now [] paid s timed some_stake named room fits small =
      omega arith
  pay_delegators-owned k pool delegated now (d ∷ rest) paid s timed some_stake named room fits
        small =
      let share = delegator_share pool delegated paid d rest in
      let room' = share_room env pool delegated paid d rest some_stake room in
      let bound = paid-le (paid + share) pool delegated (sum_by amount_of rest) some_stake room' in
      let paid1 = if share == 0 then paid else saturating_add paid share in
      let sum1 : paid1 ≡ paid + share =
        ground (arith, saturating_add_exact paid share (omega arith)) in
      let s1 =
        if share == 0
        then s
        else vest_mining_reward env d.delegator share "validator_delegation" now now s in
      let grown =
        vest_if-circulating env d.delegator share "validator_delegation" now s named.0 timed
          (omega arith) in
      let own =
        vest_if-owned d.delegator share "validator_delegation" now s k named.0 timed
          (omega arith) in
      let enough = share-ge pool delegated paid d rest some_stake small room in
      let given : share_of k pool delegated d
          ≤ (if str_eq (normalize_address env d.delegator) k then share else 0) =
        ground (arith, enough) in
      let later =
        pay_delegators-owned k pool delegated now rest paid1 s1 timed some_stake named.1
          (rw sum1 room') (omega (arith, grown.0, sum1)) small in
      omega (arith, later, own, given)

  pub pay_all-owned :
      (k a : String) (pool delegated now : ℕ) (delegations : Dict StakeDelegation) (s : State)
      → let ds = validator_delegations a delegations in
        0 < now
        → Named env ds
        → sum_by amount_of ds ≤ delegated
        → circulating s.accounts + pool < u64_mod
        → owned k s + sum_by (share_of k pool delegated) ds
          ≤ owned k (pay_delegators env pool delegated now ds 0 s).0
  pay_all-owned k a pool zero now delegations s timed named backed fits =
      rw (no_delegations a delegations backed) (unfold pay_delegators in omega arith)
  pay_all-owned k a pool (suc n) now delegations s timed named backed fits =
      let ds = validator_delegations a delegations in
      let room : 0 * suc n + pool * sum_by amount_of ds ≤ pool * suc n =
        omega (arith, mul-le-mul_left pool backed) in
      pay_delegators-owned k pool (suc n) now ds 0 s timed (omega arith) named room (omega arith)
        (omega arith)
