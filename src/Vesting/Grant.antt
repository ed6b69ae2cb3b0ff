-- ===== src/Vesting/Grant.antt =====
-- What the grant of a mining reward does to the account and to its bucket.
use falari.Prelude.{
  ℕ, ◌+◌, ◌≤◌, ◌<◌, String, false, ◌≡◌, ◌≢◌, ◌∙◌, inl, inr, ap, sym, some, Option-cases, str_eq,
  eq_iff, ◌==◌, if◌then◌else◌, Bool-cases, arith,
}
use falari.Arith.{u64_mod, saturating_add}
use falari.Arith.Bounds.{saturating_add_exact}
use falari.Dict.{Dict, lookup, insert, value_of}
use falari.Dict.Laws.{str_ne-of-false, total-insert}
use falari.Types.{Account, MiningRewardVestingBucket}
use falari.Env.{Env, normalize_address, normalize_address_idempotent}
use falari.State.{State}
use falari.Accounts.{account_at, account_locked}
use falari.Accounts.Funds.{
  holdings, circulating, circulating-insert, holdings-le-circulating, account_at-insert_self,
  account_at-insert_ne,
}
use falari.Vesting.{
  vest_mining_reward, vest_writes, vested_bucket, bucket_of, vesting_bucket_id, vesting_day_start,
}
use falari.Vesting.Release.{left_for, unreleased, IsBacked}

module _ (env : Env) where
  -- The bucket of an account and a day, if there is one, is that account's, has its id, and has not
  -- given more than its total.
  abbrev pub IsFiled : String → ℕ → Dict MiningRewardVestingBucket → Type 0
  IsFiled a now buckets =
      (b : MiningRewardVestingBucket)
      → lookup (vesting_bucket_id a (vesting_day_start now)) buckets ≡ some b
      → (b.address ≡ a) × (str_eq b.bucket_id "" ≡ false) × (b.released ≤ b.total)

  bucket_of-left :
      (k a : String) (now : ℕ) (buckets : Dict MiningRewardVestingBucket)
      → IsFiled a now buckets
      → let b = bucket_of env a now buckets in
        (value_of (left_for k) (lookup (vesting_bucket_id a (vesting_day_start now)) buckets)
          ≡ left_for k b)
        × (b.address ≡ a)
        × (b.released ≤ b.total)
  bucket_of-left k a now buckets filed =
      elim (Option-cases (lookup (vesting_bucket_id a (vesting_day_start now)) buckets)) [
        | inl e ↦ ground (arith, e)
        | inr (b, e) ↦ ground (arith, e, filed b e)
      ]

  vest_mining_reward-writes :
      (address : String) (amount : ℕ) (source : String) (now wall : ℕ) (s : State)
      → 0 < amount
      → normalize_address env address ≢ ""
      → 0 < now
      → vest_mining_reward env address amount source now wall s
        ≡ vest_writes env
            (normalize_address env address)
            amount
            (if str_eq source "" then "mining" else source)
            now
            s
  unfolding vest_mining_reward
  vest_mining_reward-writes address amount source now wall s some_amount named timed =
      ground (arith, eq_iff (normalize_address env address) "")

  vest_writes-circulating :
      (address : String) (amount : ℕ) (source : String) (now : ℕ) (s : State)
      → let a = normalize_address env address in
        circulating s.accounts + amount < u64_mod
        → circulating (vest_writes env a amount source now s).accounts
          ≡ circulating s.accounts + amount
  unfolding account_locked holdings
  vest_writes-circulating address amount source now s fits =
      let a = normalize_address env address in
      let old = account_at s.accounts a in
      rw (normalize_address_idempotent env address) (
        omega (
          arith,
          circulating-insert a
              (record old {
                pending_mining_rewards = saturating_add old.pending_mining_rewards amount;
              })
              s.accounts,
          holdings-le-circulating a s.accounts,
          saturating_add_exact old.pending_mining_rewards amount,
        ))

  -- A grant, also of nothing, adds its amount to what all accounts own.
  pub vest_mining_reward-circulating :
      (address : String) (amount : ℕ) (source : String) (now wall : ℕ) (s : State)
      → normalize_address env address ≢ ""
      → 0 < now
      → circulating s.accounts + amount < u64_mod
      → circulating (vest_mining_reward env address amount source now wall s).accounts
        ≡ circulating s.accounts + amount
  unfolding vest_mining_reward
  vest_mining_reward-circulating address amount source now wall s named timed fits =
      let src = if str_eq source "" then "mining" else source in
      ground (
        arith,
        eq_iff (normalize_address env address) "",
        vest_writes-circulating address amount src now s fits,
      )

  pub vest_mining_reward-pools :
      (address : String) (amount : ℕ) (source : String) (now wall : ℕ) (s : State)
      → (vest_mining_reward env address amount source now wall s).reward_pools ≡ s.reward_pools
  unfolding vest_mining_reward
  vest_mining_reward-pools address amount source now wall s = ground arith

  -- The same under the code's own test for nothing.
  pub vest_if-circulating :
      (address : String) (amount : ℕ) (source : String) (now : ℕ) (s : State)
      → normalize_address env address ≢ ""
      → 0 < now
      → circulating s.accounts + amount < u64_mod
      → let s' =
          if amount == 0 then s else vest_mining_reward env address amount source now now s in
        (circulating s'.accounts ≡ circulating s.accounts + amount)
        × (s'.reward_pools ≡ s.reward_pools)
  vest_if-circulating address amount source now s named timed fits = ground (
    arith,
    vest_mining_reward-circulating address amount source now now s named timed fits,
    vest_mining_reward-pools address amount source now now s,
  )

  vest_writes-backed :
      (address : String) (amount : ℕ) (source : String) (now : ℕ) (s : State) (k : String)
      → let a = normalize_address env address in
        IsFiled a now s.mining_reward_vestings
        → circulating s.accounts + amount < u64_mod
        → (bucket_of env a now s.mining_reward_vestings).total + amount < u64_mod
        → IsBacked env s
        → let s' = vest_writes env a amount source now s in
          (account_at s'.accounts k).pending_mining_rewards ≡ unreleased k s'.mining_reward_vestings
  unfolding account_locked holdings
  vest_writes-backed address amount source now s k filed fits small backed =
      let a = normalize_address env address in
      let old = account_at s.accounts a in
      let new = record old {
        pending_mining_rewards = saturating_add old.pending_mining_rewards amount;
      } in
      let exact = saturating_add_exact old.pending_mining_rewards amount in
      let b = bucket_of env a now s.mining_reward_vestings in
      let (stored, owner, sound) = bucket_of-left k a now s.mining_reward_vestings filed in
      let grown =
        total-insert (left_for k) (vesting_bucket_id a (vesting_day_start now))
          (vested_bucket env a amount source now s) s.mining_reward_vestings in
      let more = saturating_add_exact b.total amount small in
      elim (Bool-cases (str_eq a k)) [
        | inl same ↦
            (let p = (eq_iff a k).0 same in
              rw (normalize_address_idempotent env address) (
                ground (
                  arith,
                  same,
                  grown,
                  stored,
                  ap (λ (j : String). str_eq j k) owner,
                  more,
                  sound,
                  exact (omega (arith, holdings-le-circulating a s.accounts)),
                  backed k,
                  ap
                      (λ (j : String).
                        (account_at (insert a new s.accounts) j).pending_mining_rewards)
                      p,
                  ap (λ (j : String). (account_at s.accounts j).pending_mining_rewards) p,
                  ap (λ (t : Account). t.pending_mining_rewards)
                      (account_at-insert_self a new s.accounts),
                )))
        | inr other ↦
            rw
              (
                normalize_address_idempotent env address,
                account_at-insert_ne a k new s.accounts (str_ne-of-false a k other),
              )
              (ground
                (arith, other, grown, stored, ap (λ (j : String). str_eq j k) owner, backed k))
      ]

  -- A grant of a mining reward to an account adds exactly the amount to what all accounts own, and
  -- keeps every account's pending rewards equal to what its buckets have left. It holds where the
  -- sum over all accounts and the bucket's total stay uint64 with the amount, and the bucket of the
  -- account and the day is its own.
  pub vest_mining_reward-IsBacked :
      (address : String) (amount : ℕ) (source : String) (now wall : ℕ) (s : State)
      → let a = normalize_address env address in
        0 < amount
        → a ≢ ""
        → 0 < now
        → IsFiled a now s.mining_reward_vestings
        → circulating s.accounts + amount < u64_mod
        → (bucket_of env a now s.mining_reward_vestings).total + amount < u64_mod
        → IsBacked env s
        → let s' = vest_mining_reward env address amount source now wall s in
          (circulating s'.accounts ≡ circulating s.accounts + amount) × IsBacked env s'
  vest_mining_reward-IsBacked address amount source now wall s some_amount named timed filed fits
        small backed =
      let a = normalize_address env address in
      let src = if str_eq source "" then "mining" else source in
      let after : vest_mining_reward env address amount source now wall s
          ≡ vest_writes env a amount src now s =
        vest_mining_reward-writes address amount source now wall s some_amount named timed in
      (
        ap (λ (t : State). circulating t.accounts) after
            ∙ vest_writes-circulating address amount src now s fits,
        λ k.
            ap (λ (t : State). (account_at t.accounts k).pending_mining_rewards) after
            ∙ vest_writes-backed address amount src now s k filed fits small backed
            ∙ ap (λ (t : State). unreleased k t.mining_reward_vestings) (sym after),
      )
