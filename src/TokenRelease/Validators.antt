-- ===== src/TokenRelease/Validators.antt =====
-- The validators' share of a release (internal/chain/token_release.go). Go walks the map of
-- delegations in any order; the model takes the order of the list.
use falari.Prelude.{
  ℕ, ◌-◌, ◌*◌, ◌/◌, String, Bool, true, false, ◌||◌, ◌&&◌, List, [], ◌∷◌, map, none, some, str_eq,
  ltb, ◌==◌, if◌then◌else◌,
}
use falari.Arith.{add64, mul64, saturating_add, mul_div_uint64}
use falari.Dict.{Dict, lookup, insert}
use falari.Types.{ValidatorInfo, StakeDelegation, unregistered}
use falari.Env.{Env, normalize_address}
use falari.State.{State}
use falari.Escrow.{least}
use falari.Vesting.{vest_mining_reward}
use falari.Consensus.{consensus_validator_addresses, raw_power, total_power}
use falari.TokenRelease.{token_unit, or_default, permanent_fund_injection_amount, credit}

abbrev pub no_validator : String → ValidatorInfo
no_validator a = record {
  owner_address = a;
  operator_address = "";
  operator_public_key = "";
  stake = 0;
  delegated_stake = 0;
  self_stake = 0;
  status = unregistered;
  delegator_count = 0;
  rewards = 0;
  delegation_rewards = 0;
  commission_rate_bps = 0;
  produced_blocks = 0;
}

-- The addresses of the consensus validators with their power, which is not weighed by availability.
abbrev pub raw_powers : State → List (String × ℕ)
raw_powers s = map (λ a. (a, raw_power a s)) (consensus_validator_addresses s)

abbrev pub consensus_validator_power : State → ℕ
consensus_validator_power s = total_power 0 (raw_powers s)

-- validatorDelegationsLocked
unfoldable pub validator_delegations : String → Dict StakeDelegation → List StakeDelegation
validator_delegations a [] = []
validator_delegations a ((_, d) ∷ rest) =
    let later = validator_delegations a rest in
    if str_eq d.validator a && ltb 0 d.amount then d ∷ later else later

abbrev pub is_last : List StakeDelegation → Bool
is_last [] = true
is_last (_ ∷ _) = false

-- A delegator's share; the last one gets what is left.
abbrev pub delegator_share : ℕ → ℕ → ℕ → StakeDelegation → List StakeDelegation → ℕ
delegator_share pool delegated paid d rest =
    if is_last rest && ltb paid pool
    then pool - paid
    else if ltb 0 delegated
    then mul_div_uint64 pool d.amount 1 delegated
    else 0

abbrev pub put_validator : String → ValidatorInfo → State → State
put_validator a v s = record s { validators = insert a v s.validators }

-- What the validator itself gets of an amount: its commission, and the share of its own stake.
unfoldable pub validator_part : ℕ → ℕ → ℕ → ℕ → ℕ
validator_part amount commission_bps self_stake power =
    least
      (saturating_add (mul_div_uint64 amount commission_bps 1 10000)
        (mul_div_uint64 amount self_stake 1 power))
      amount

abbrev pub earned : ℕ → ℕ → ValidatorInfo → ValidatorInfo
earned own delegators v = record v {
  rewards = saturating_add v.rewards own;
  delegation_rewards = saturating_add v.delegation_rewards delegators;
}

abbrev pub own_stake : ValidatorInfo → ℕ
own_stake v = if v.self_stake == 0 then v.stake else v.self_stake

-- The product is taken on uint64.
abbrev pub reward_share : ℕ → ℕ → ℕ → ℕ
reward_share amount power total = mul64 amount power / total

module _ (env : Env) where
  unfoldable pub validator_locked : String → State → ValidatorInfo
  validator_locked a s = elim (lookup (normalize_address env a) s.validators) [
    | none ↦ no_validator (normalize_address env a)
    | some v ↦ v
  ]

  -- The loop over the delegations: the state, and what is paid.
  unfoldable pub pay_delegators : ℕ → ℕ → ℕ → List StakeDelegation → ℕ → State → State × ℕ
  pay_delegators pool delegated now [] paid s = (s, paid)
  pay_delegators pool delegated now (d ∷ rest) paid s =
      let share = delegator_share pool delegated paid d rest in
      pay_delegators pool delegated now rest
        (if share == 0 then paid else saturating_add paid share)
        (if share == 0
          then s
          else vest_mining_reward env d.delegator share "validator_delegation" now now s)

  -- distributeValidatorRewardLocked
  unfoldable pub distribute_validator_reward : String → ℕ → ℕ → State → State
  distribute_validator_reward a amount now s =
      let v = validator_locked a s in
      let power = add64 (own_stake v) v.delegated_stake in
      let bps =
        if v.commission_rate_bps == 0
        then s.mining_params.validator_commission_bps
        else v.commission_rate_bps in
      let own = validator_part amount bps (own_stake v) power in
      let pool = amount - own in
      let s1 = vest_mining_reward env a own "validator_pool" now now s in
      let (s2, paid) =
        pay_delegators pool v.delegated_stake now (validator_delegations a s.stake_delegations) 0
          s1 in
      let left = pool - paid in
      if power == 0
      then put_validator a (earned amount 0 v)
          (vest_mining_reward env a amount "validator_pool" now now s)
      else if ltb paid pool
      then put_validator a (earned left 0 (earned own paid v))
          (vest_mining_reward env a left "validator_pool" now now s2)
      else put_validator a (earned own paid v) s2

  -- The loop over the validators: the state, and what is distributed.
  unfoldable pub reward_validators : ℕ → ℕ → ℕ → List (String × ℕ) → ℕ → State → State × ℕ
  reward_validators amount total now [] distributed s = (s, distributed)
  reward_validators amount total now ((a, power) ∷ rest) distributed s =
      let share = reward_share amount power total in
      reward_validators amount total now rest
        (if share == 0 then distributed else saturating_add distributed share)
        (if share == 0 then s else distribute_validator_reward a share now s)

  -- distributeValidatorPoolRewardsLocked; what is left over goes back into the pool.
  unfoldable pub distribute_validator_pool : ℕ → ℕ → State → State
  distribute_validator_pool amount now s =
      let total = consensus_validator_power s in
      let (s', distributed) = reward_validators amount total now (raw_powers s) 0 s in
      if amount == 0 || total == 0
      then s
      else if ltb distributed amount
      then record s' {
        reward_pools = record s'.reward_pools {
          validator_remaining =
              saturating_add s'.reward_pools.validator_remaining (amount - distributed);
        };
      }
      else s'

  abbrev pub pay_producer : String → ℕ → State → State
  pay_producer producer amount s =
      let s1 = credit env producer amount s in
      let v = validator_locked producer s1 in
      put_validator producer (record v { rewards = saturating_add v.rewards amount }) s1

  -- releaseValidatorPerBlockLocked
  unfoldable pub release_validator_per_block : ℕ → String → State → State
  release_validator_per_block now producer s =
      let pools = s.reward_pools in
      let per_block = or_default (22 * token_unit) s.mining_params.validator_reward_per_block in
      let release = least per_block pools.validator_remaining in
      let fund_share = permanent_fund_injection_amount release s in
      let payout = release - fund_share in
      let bps = least (or_default 3000 s.mining_params.block_production_reward_bps) 10000 in
      let block_reward = mul64 payout bps / 10000 in
      let s1 = record s {
        reward_pools = record pools {
          validator_remaining = pools.validator_remaining - release;
          permanent_fund_remaining = saturating_add pools.permanent_fund_remaining fund_share;
          tokens_released = saturating_add pools.tokens_released release;
        };
        last_validator_release_at_unix = now;
      } in
      if pools.validator_remaining == 0 || consensus_validator_power s == 0
      then s
      else if ltb 0 block_reward && str_eq producer ""
      then distribute_validator_pool (saturating_add (payout - block_reward) block_reward) now s1
      else distribute_validator_pool (payout - block_reward) now
          (if block_reward == 0 then s1 else pay_producer producer block_reward s1)
