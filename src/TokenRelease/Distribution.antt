-- ===== src/TokenRelease/Distribution.antt =====
-- What a validator and its delegators get of an amount, in sum.
use falari.Prelude.{
  ℕ, zero, suc, ◌+◌, ◌-◌, ◌*◌, ◌/◌, ◌≤◌, ◌<◌, String, false, ◌≡◌, refl, ◌≢◌, ◌∙◌, inl, inr, List,
  [], ◌∷◌, All, sum_by, ltb, ◌==◌, if◌then◌else◌, Bool-cases, lt→ltb, arith,
}
use native.Mathlib.Nat.{le_of_mul-le-mul_right, div-mul-le_self, mul-le-mul_right, mul-le-mul_left}
use falari.Arith.{u64_mod, add64, saturating_add, mul_div_uint64}
use falari.Arith.Bounds.{saturating_add_exact}
use falari.Dict.{Dict}
use falari.Types.{StakeDelegation}
use falari.Env.{Env, normalize_address}
use falari.State.{State}
use falari.Accounts.Funds.{circulating}
use falari.Vesting.{vest_mining_reward}
use falari.Vesting.Grant.{
  vest_mining_reward-circulating, vest_mining_reward-pools, vest_if-circulating,
}
use falari.TokenRelease.Validators.{
  validator_delegations, validator_locked, delegator_share, pay_delegators, validator_part,
  own_stake, distribute_validator_reward,
}

abbrev pub amount_of : StakeDelegation → ℕ
amount_of d = d.amount

quotient-le : (pool a d : ℕ) → mul_div_uint64 pool a 1 (suc d) ≤ pool * a * 1 / suc d
unfolding mul_div_uint64
quotient-le pool a d = ground arith

share-le : (pool a d : ℕ) → mul_div_uint64 pool a 1 d * d ≤ pool * a
unfolding mul_div_uint64
share-le pool a zero = grind arith
share-le pool a (suc d) =
    omega (
      arith,
      div-mul-le_self (pool * a * 1) (suc d),
      mul-le-mul_right (suc d) (quotient-le pool a d),
    )

-- After a share is paid there is still room for the shares of the rest.
room_left :
    (paid share pool d a rest : ℕ)
    → share * d ≤ pool * a
    → paid * d + pool * (a + rest) ≤ pool * d
    → (paid + share) * d + pool * rest ≤ pool * d
room_left paid share pool d a rest h room = grind arith

pub paid-le : (paid pool d rest : ℕ) → 0 < d → paid * d + pool * rest ≤ pool * d → paid ≤ pool
paid-le paid pool d rest pos room = le_of_mul-le-mul_right (omega arith) pos

last_room : (pool d paid : ℕ) → paid ≤ pool → (paid + (pool - paid)) * d + pool * 0 ≤ pool * d
last_room pool d paid h = let e : paid + (pool - paid) ≡ pool = omega arith in rw e (omega arith)

abbrev pub Named : Env → List StakeDelegation → Type 0
Named env ds = All (λ (d : StakeDelegation). normalize_address env d.delegator ≢ "") ds

ltb-le : (a b : ℕ) → ltb a b ≡ false → b ≤ a
ltb-le a b h = ground arith

pub no_delegations :
    (a : String) (ds : Dict StakeDelegation)
    → sum_by amount_of (validator_delegations a ds) ≤ 0
    → validator_delegations a ds ≡ []
unfolding validator_delegations
no_delegations a [] h = refl
no_delegations a ((k, d) ∷ rest) h = ground (arith, no_delegations a rest)

pub part-le : (amount bps own power : ℕ) → validator_part amount bps own power ≤ amount
unfolding validator_part
part-le amount bps own power = ground arith

module _ (env : Env) where
  pub share_room :
      (pool delegated paid : ℕ) (d : StakeDelegation) (rest : List StakeDelegation)
      → 0 < delegated
      → paid * delegated + pool * sum_by amount_of (d ∷ rest) ≤ pool * delegated
      → (paid + delegator_share pool delegated paid d rest) * delegated
          + pool * sum_by amount_of rest
        ≤ pool * delegated
  share_room pool delegated paid d [] some_stake room = elim (Bool-cases (ltb paid pool)) [
    | inl less ↦ rw less (last_room pool delegated paid (ground arith))
    | inr full ↦
        rw (full, lt→ltb 0 delegated some_stake)
          (room_left paid (mul_div_uint64 pool d.amount 1 delegated) pool delegated d.amount 0
            (share-le pool d.amount delegated) room)
  ]
  share_room pool delegated paid d (e ∷ rest) some_stake room = rw (lt→ltb 0 delegated some_stake) (
      room_left paid (mul_div_uint64 pool d.amount 1 delegated) pool delegated d.amount
        (sum_by amount_of (e ∷ rest)) (share-le pool d.amount delegated) room)

  -- The delegators are paid no more than the pool, and their accounts grow by what is paid.
  pay_delegators-sum :
      (pool delegated now : ℕ) (ds : List StakeDelegation) (paid : ℕ) (s : State)
      → 0 < now
      → 0 < delegated
      → Named env ds
      → paid * delegated + pool * sum_by amount_of ds ≤ pool * delegated
      → circulating s.accounts + (pool - paid) < u64_mod
      → pool < u64_mod
      → let (s', paid') = pay_delegators env pool delegated now ds paid s in
        (paid' ≤ pool)
        × (circulating s'.accounts + paid ≡ circulating s.accounts + paid')
        × (s'.reward_pools ≡ s.reward_pools)
  unfolding pay_delegators
  pay_delegators-sum pool delegated now [] paid s timed some_stake named room fits small =
      (paid-le paid pool delegated 0 some_stake room, refl, refl)
  pay_delegators-sum pool delegated now (d ∷ rest) paid s timed some_stake named room fits small =
      let share = delegator_share pool delegated paid d rest in
      let room' = share_room pool delegated paid d rest some_stake room in
      let bound = paid-le (paid + share) pool delegated (sum_by amount_of rest) some_stake room' in
      let paid1 = if share == 0 then paid else saturating_add paid share in
      let sum1 : paid1 ≡ paid + share =
        ground (arith, saturating_add_exact paid share (omega arith)) in
      let s1 =
        if share == 0
        then s
        else vest_mining_reward env d.delegator share "validator_delegation" now now s in
      let grown =
        vest_if-circulating env d.delegator share "validator_delegation" now s named.0 timed
          (omega arith) in
      let later =
        pay_delegators-sum pool delegated now rest paid1 s1 timed some_stake named.1 (rw sum1 room')
          (omega (arith, grown.0, sum1)) small in
      (later.0, omega (arith, later.1, grown.0, sum1), later.2 ∙ grown.1)

  none_paid :
      (pool now : ℕ) (s : State)
      → let (s', paid) = pay_delegators env pool 0 now [] 0 s in
        (paid ≤ pool)
        × (circulating s'.accounts ≡ circulating s.accounts + paid)
        × (s'.reward_pools ≡ s.reward_pools)
  unfolding pay_delegators
  none_paid pool now s = (omega arith, omega arith, refl)

  -- The same for all of a validator's delegators, also where it has none.
  pub pay_all_delegators :
      (a : String) (pool delegated now : ℕ) (delegations : Dict StakeDelegation) (s : State)
      → let ds = validator_delegations a delegations in
        0 < now
        → Named env ds
        → sum_by amount_of ds ≤ delegated
        → circulating s.accounts + pool < u64_mod
        → let (s', paid) = pay_delegators env pool delegated now ds 0 s in
          (paid ≤ pool)
          × (circulating s'.accounts ≡ circulating s.accounts + paid)
          × (s'.reward_pools ≡ s.reward_pools)
  pay_all_delegators a pool zero now delegations s timed named backed fits =
      rw (no_delegations a delegations backed) (none_paid pool now s)
  pay_all_delegators a pool (suc n) now delegations s timed named backed fits =
      let ds = validator_delegations a delegations in
      let room : 0 * suc n + pool * sum_by amount_of ds ≤ pool * suc n =
        omega (arith, mul-le-mul_left pool backed) in
      let all =
        pay_delegators-sum pool (suc n) now ds 0 s timed (omega arith) named room (omega arith)
          (omega arith) in
      (all.0, omega (arith, all.1), all.2)

  -- Whatever a validator is rewarded with, all accounts together own exactly that more.
  pub distribute_validator_reward-sum :
      (a : String) (amount now : ℕ) (s : State)
      → 0 < now
      → normalize_address env a ≢ ""
      → Named env (validator_delegations a s.stake_delegations)
      → sum_by amount_of (validator_delegations a s.stake_delegations)
        ≤ (validator_locked env a s).delegated_stake
      → circulating s.accounts + amount < u64_mod
      → let s' = distribute_validator_reward env a amount now s in
        (circulating s'.accounts ≡ circulating s.accounts + amount)
        × (s'.reward_pools ≡ s.reward_pools)
  unfolding distribute_validator_reward
  distribute_validator_reward-sum a amount now s timed address named backed fits =
      let v = validator_locked env a s in
      let power = add64 (own_stake v) v.delegated_stake in
      let bps =
        if v.commission_rate_bps == 0
        then s.mining_params.validator_commission_bps
        else v.commission_rate_bps in
      let own = validator_part amount bps (own_stake v) power in
      let pool = amount - own in
      let small = part-le amount bps (own_stake v) power in
      let s1 = vest_mining_reward env a own "validator_pool" now now s in
      let first =
        vest_mining_reward-circulating env a own "validator_pool" now now s address timed
          (omega arith) in
      let paying =
        pay_all_delegators a pool v.delegated_stake now s.stake_delegations s1 timed named backed
          (omega arith) in
      let s2 =
        (pay_delegators env pool v.delegated_stake now (validator_delegations a s.stake_delegations)
          0 s1).0 in
      let paid =
        (pay_delegators env pool v.delegated_stake now (validator_delegations a s.stake_delegations)
          0 s1).1 in
      let last =
        vest_mining_reward-circulating env a (pool - paid) "validator_pool" now now s2 address timed
          (omega arith) in
      let all =
        vest_mining_reward-circulating env a amount "validator_pool" now now s address timed fits in
      elim (Bool-cases (power == 0)) [
        | inl none_staked ↦
            rw none_staked (all, vest_mining_reward-pools env a amount "validator_pool" now now s)
        | inr some_staked ↦ elim (Bool-cases (ltb paid pool)) [
          | inl less ↦
              rw (some_staked, less)
                (
                  omega arith,
                  vest_mining_reward-pools env a (pool - paid) "validator_pool" now now s2
                      ∙ paying.2
                      ∙ vest_mining_reward-pools env a own "validator_pool" now now s,
                )
          | inr full ↦
              rw (some_staked, full)
                (
                  omega (arith, ltb-le paid pool full),
                  paying.2 ∙ vest_mining_reward-pools env a own "validator_pool" now now s,
                )
        ]
      ]
