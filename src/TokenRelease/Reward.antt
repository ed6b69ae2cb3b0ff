-- ===== src/TokenRelease/Reward.antt =====
-- What a validator's reward gives to each account: the validator's own part, and the delegators'
-- shares (distributeValidatorRewardLocked in internal/chain/token_release.go).
use falari.Prelude.{
  ℕ, ◌+◌, ◌-◌, ◌*◌, ◌/◌, ◌≤◌, ◌<◌, String, ◌≡◌, ◌≢◌, ◌∙◌, inl, inr, [], sum_by, ltb, ◌==◌,
  if◌then◌else◌, Bool-cases, str_eq, ap, arith,
}
use mathlib.Core.Path.{subst}
use falari.Arith.{u64_mod, add64, saturating_add, mul_div_uint64}
use falari.Env.{Env, normalize_address}
use falari.State.{State}
use falari.Escrow.{least}
use falari.Accounts.Funds.{circulating}
use falari.Vesting.{vest_mining_reward}
use falari.Vesting.Grant.{vest_mining_reward-circulating}
use falari.TokenRelease.Validators.{
  validator_delegations, validator_locked, pay_delegators, validator_part, own_stake,
  distribute_validator_reward,
}
use falari.TokenRelease.Distribution.{
  amount_of, Named, no_delegations, part-le, pay_all_delegators, distribute_validator_reward-sum,
}
use falari.TokenRelease.Shares.{
  free, vest_mining_reward-free, pay_delegators-free, owned, share_of, vest_mining_reward-owned,
  pay_all-owned,
}

part_exact :
    (amount bps own power : ℕ)
    → 0 < power
    → amount < u64_mod
    → validator_part amount bps own power
      ≡ least (amount * bps / 10000 + amount * own / power) amount
unfolding validator_part mul_div_uint64 saturating_add
part_exact amount bps own power pos small =
    let one : amount * bps * 1 ≡ amount * bps = omega arith in
    let two : amount * own * 1 ≡ amount * own = omega arith in rw (one, two) (ground arith)

least-le : (x amount : ℕ) → least x amount ≤ amount
least-le x amount = ground arith

module _ (env : Env) where
  -- What a reward of `amount` gives to the validator before its delegators are paid: its commission
  -- and the share of its own stake, each rounded down, and not more than the amount.
  abbrev pub own_part : String → ℕ → State → ℕ
  own_part a amount s =
      let v = validator_locked env a s in
      let bps =
        if v.commission_rate_bps == 0
        then s.mining_params.validator_commission_bps
        else v.commission_rate_bps in
      least (amount * bps / 10000 + amount * own_stake v / (own_stake v + v.delegated_stake)) amount

  distribute_validator_reward-owned :
      (a : String) (amount now : ℕ) (s : State) (k : String)
      → let ds = validator_delegations a s.stake_delegations in
        let v = validator_locked env a s in
        let own = own_part a amount s in
        0 < now
        → normalize_address env a ≢ ""
        → Named env ds
        → sum_by amount_of ds ≤ v.delegated_stake
        → own_stake v + v.delegated_stake < u64_mod
        → circulating s.accounts + amount < u64_mod
        → owned k s
            + (if str_eq (normalize_address env a) k then own else 0)
            + sum_by (share_of env k (amount - own) v.delegated_stake) ds
          ≤ owned k (distribute_validator_reward env a amount now s)
  unfolding distribute_validator_reward
  distribute_validator_reward-owned a amount now s k timed address named backed staked fits =
      let ds = validator_delegations a s.stake_delegations in
      let v = validator_locked env a s in
      let power = add64 (own_stake v) v.delegated_stake in
      let bps =
        if v.commission_rate_bps == 0
        then s.mining_params.validator_commission_bps
        else v.commission_rate_bps in
      let own = validator_part amount bps (own_stake v) power in
      let pool = amount - own in
      let small = part-le amount bps (own_stake v) power in
      let sum : power ≡ own_stake v + v.delegated_stake = omega (arith, staked) in
      let s1 = vest_mining_reward env a own "validator_pool" now now s in
      let first =
        vest_mining_reward-circulating env a own "validator_pool" now now s address timed
          (omega arith) in
      let own1 =
        vest_mining_reward-owned env a own "validator_pool" now now s k address timed
          (omega arith) in
      let total =
        pay_all_delegators env a pool v.delegated_stake now s.stake_delegations s1 timed named
          backed (omega arith) in
      let shares =
        pay_all-owned env k a pool v.delegated_stake now s.stake_delegations s1 timed named backed
          (omega arith) in
      let s2 = (pay_delegators env pool v.delegated_stake now ds 0 s1).0 in
      let paid = (pay_delegators env pool v.delegated_stake now ds 0 s1).1 in
      let last =
        vest_mining_reward-owned env a (pool - paid) "validator_pool" now now s2 k address timed
          (omega arith) in
      let all =
        vest_mining_reward-owned env a amount "validator_pool" now now s k address timed fits in
      elim (Bool-cases (power == 0)) [
        | inl none_staked ↦
            let none_shared : ds ≡ [] =
              no_delegations a s.stake_delegations (ground (arith, none_staked, sum, backed)) in
            let none_due =
              ap (sum_by (share_of env k (amount - own_part a amount s) v.delegated_stake))
                none_shared in
            let own_small =
              least-le
                (amount * bps / 10000 + amount * own_stake v / (own_stake v + v.delegated_stake))
                amount in
            rw none_staked (ground (arith, all, none_due, own_small))
        | inr some_staked ↦
            let e : own ≡ own_part a amount s =
              part_exact amount bps (own_stake v) power (ground (arith, some_staked)) (omega arith)
              ∙ ap (λ (x : ℕ). least (amount * bps / 10000 + amount * own_stake v / x) amount)
                  sum in
            subst
              (λ (x : ℕ).
                owned k s
                  + (if str_eq (normalize_address env a) k then x else 0)
                  + sum_by (share_of env k (amount - x) v.delegated_stake) ds
                ≤ owned k (distribute_validator_reward env a amount now s))
              e
              (elim (Bool-cases (ltb paid pool)) [
                | inl less ↦ rw (some_staked, less) (omega (arith, own1, shares, last))
                | inr full ↦ rw (some_staked, full) (omega (arith, own1, shares))
              ])
      ]

  distribute_validator_reward-free :
      (a : String) (amount now : ℕ) (s : State) (k : String)
      → free k (distribute_validator_reward env a amount now s) ≡ free k s
  unfolding distribute_validator_reward
  distribute_validator_reward-free a amount now s k =
      let ds = validator_delegations a s.stake_delegations in
      let v = validator_locked env a s in
      let power = add64 (own_stake v) v.delegated_stake in
      let bps =
        if v.commission_rate_bps == 0
        then s.mining_params.validator_commission_bps
        else v.commission_rate_bps in
      let own = validator_part amount bps (own_stake v) power in
      let pool = amount - own in
      let s1 = vest_mining_reward env a own "validator_pool" now now s in
      let (s2, paid) = pay_delegators env pool v.delegated_stake now ds 0 s1 in
      ground (
        arith,
        vest_mining_reward-free env a amount "validator_pool" now now s k,
        vest_mining_reward-free env a own "validator_pool" now now s k,
        pay_delegators-free env k pool v.delegated_stake now ds 0 s1,
        vest_mining_reward-free env a (pool - paid) "validator_pool" now now s2 k,
      )

  -- Whatever a validator is rewarded with is vested in full, to it and to its delegators: all
  -- accounts together own exactly the amount more, no free balance changes, and the pools stay as
  -- they are. Every account
  -- `k` owns more by at least the validator's own part (its commission and the share of its own
  -- stake, each rounded down), if `k` is the validator, and by the part of the rest, rounded down, that each
  -- delegation of `k` makes of the delegated stake. It holds for a validator whose delegations do
  -- not add up to more than its delegated stake, with addresses that are not empty, at a time after
  -- 0, where its whole stake and the sum over all accounts with the amount are uint64.
  pub distribute_validator_reward_lem :
      (a : String) (amount now : ℕ) (s : State) (k : String)
      → let ds = validator_delegations a s.stake_delegations in
        let v = validator_locked env a s in
        let own = own_part a amount s in
        let s' = distribute_validator_reward env a amount now s in
        0 < now
        → normalize_address env a ≢ ""
        → Named env ds
        → sum_by amount_of ds ≤ v.delegated_stake
        → own_stake v + v.delegated_stake < u64_mod
        → circulating s.accounts + amount < u64_mod
        → (circulating s'.accounts ≡ circulating s.accounts + amount)
          × (s'.reward_pools ≡ s.reward_pools)
          × (free k s' ≡ free k s)
          × (owned k s
                + (if str_eq (normalize_address env a) k then own else 0)
                + sum_by (share_of env k (amount - own) v.delegated_stake) ds
              ≤ owned k s')
  distribute_validator_reward_lem a amount now s k timed address named backed staked fits =
      let total =
        distribute_validator_reward-sum env a amount now s timed address named backed fits in
      (
        total.0,
        total.1,
        distribute_validator_reward-free a amount now s k,
        distribute_validator_reward-owned a amount now s k timed address named backed staked fits,
      )
