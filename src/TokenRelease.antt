-- ===== src/TokenRelease.antt =====
-- The release of the reward pools, block by block (internal/chain/token_release.go), and the reward
-- index of the miners (storage_reward_index.go). The pools are always there: initRewardPoolsLocked
-- only creates them. The arbitrary precision integers of the index are numbers.
pub mod Validators
pub mod Distribution
pub mod Shares
pub mod Reward
pub mod Streams
pub mod Index
use falari.Prelude.{
  ℕ, ◌+◌, ◌-◌, ◌*◌, ◌/◌, ◌%◌, ◌^◌, String, Bool, true, false, not, ◌||◌, ◌&&◌, List, [], ◌∷◌,
  Option, none, some, str_eq, ltb, leb, ◌==◌, if◌then◌else◌,
}
use falari.Arith.{add64, mul64, saturating_add, max_u64}
use falari.Dict.{Dict, lookup, insert}
use falari.Types.{
  Account, MinerStatus, MinerStats, active, degraded, jailed, exiting, exited, Pools,
}
use falari.Env.{Env, normalize_address}
use falari.State.{State}
use falari.Accounts.{account_locked}
use falari.Escrow.{least}
use falari.Vesting.{vest_mining_reward}

-- The whole supply and the cap of the permanent fund (internal/reward/types.go).
abbrev pub token_unit : ℕ
token_unit = 100_000_000

abbrev pub permanent_fund_cap : ℕ
permanent_fund_cap = 2_000_000_000 * 100_000_000

abbrev pub or_default : ℕ → ℕ → ℕ
or_default default n = if n == 0 then default else n

-- permanentFundInjectionAmountLocked: the share of a release that goes to the permanent fund.
unfoldable pub permanent_fund_injection_amount : ℕ → State → ℕ
permanent_fund_injection_amount gross s =
    let bps = least s.mining_params.permanent_fund_injection_bps 10000 in
    let filled = s.reward_pools.permanent_fund_remaining in
    if gross == 0 || bps == 0 || leb permanent_fund_cap filled
    then 0
    else least (mul64 gross bps / 10000) (permanent_fund_cap - filled)

module _ (env : Env) where
  -- The credit of an account, as the code writes it: `account.Balance += amount`.
  abbrev pub credit : String → ℕ → State → State
  credit address amount s =
      let account = account_locked env s address in
      record s {
        accounts =
            insert account.address (record account { balance = add64 account.balance amount })
              s.accounts;
      }

  -- releaseFoundationPerBlockLocked with distributeFoundationPoolRewardsLocked
  unfoldable pub release_foundation_per_block : State → State
  release_foundation_per_block s =
      let per_block = or_default (16 * token_unit) s.mining_params.foundation_reward_per_block in
      let amount = least per_block s.reward_pools.foundation_remaining in
      if str_eq s.foundation_address "" || s.reward_pools.foundation_remaining == 0
      then s
      else credit s.foundation_address amount (record s {
        reward_pools = record s.reward_pools {
          foundation_remaining = s.reward_pools.foundation_remaining - amount;
          tokens_released = saturating_add s.reward_pools.tokens_released amount;
        };
      })

  -- releaseRetrievalPerBlockLocked with distributeRetrievalPoolRewardsLocked
  unfoldable pub release_retrieval_per_block : State → State
  release_retrieval_per_block s =
      let per_block = or_default (10 * token_unit) s.mining_params.retrieval_reward_per_block in
      let amount = least per_block s.reward_pools.retrieval_remaining in
      if str_eq s.retrieval_address "" || s.reward_pools.retrieval_remaining == 0
      then s
      else credit s.retrieval_address amount (record s {
        reward_pools = record s.reward_pools {
          retrieval_remaining = s.reward_pools.retrieval_remaining - amount;
          tokens_released = saturating_add s.reward_pools.tokens_released amount;
        };
      })

-- The rewards of the miners, by an index per unit of weight.
abbrev pub index_scale : ℕ
index_scale = 1_000_000_000_000_000_000

abbrev pub earns : MinerStatus → Bool
earns exiting = false
earns exited = false
earns jailed = false
earns _ = true

abbrev pub is_active_miner : MinerStatus → Bool
is_active_miner active = true
is_active_miner _ = false

unfoldable pub storage_reward_weight : MinerStats → ℕ
storage_reward_weight stats =
    if not (earns stats.status)
    then 0
    else if stats.effective_weight == 0 && ltb 0 stats.used_bytes && is_active_miner stats.status
    then stats.used_bytes
    else stats.effective_weight

-- The total of storageRewardEligibleEntriesLocked.
unfoldable pub total_weight : Dict MinerStats → ℕ
total_weight [] = 0
total_weight ((_, stats) ∷ rest) = storage_reward_weight stats + total_weight rest

abbrev pub index_value : Option ℕ → ℕ
index_value none = 0
index_value (some n) = n

-- releaseStoragePerBlockLocked
unfoldable pub release_storage_per_block : State → State
release_storage_per_block s =
    let pools = s.reward_pools in
    let per_block = or_default (70 * token_unit) s.mining_params.storage_reward_per_block in
    let weight = total_weight s.miners in
    let release = least per_block pools.storage_remaining in
    let fund_share = permanent_fund_injection_amount release s in
    let numerator = (release - fund_share) * index_scale + s.storage_reward_remainder in
    let increment = numerator / weight in
    if pools.storage_remaining == 0 || weight == 0
    then s
    else if increment == 0
    then record s { storage_reward_remainder = numerator % weight }
    else record s {
      storage_reward_index = some (index_value s.storage_reward_index + increment);
      storage_reward_remainder = numerator % weight;
      reward_pools = record pools {
        storage_remaining = pools.storage_remaining - release;
        permanent_fund_remaining = saturating_add pools.permanent_fund_remaining fund_share;
        tokens_released = saturating_add pools.tokens_released release;
      };
    }

abbrev pub capped : ℕ → ℕ
capped n = if ltb max_u64 n then max_u64 else n

-- unsettledStorageRewardLocked
unfoldable pub unsettled_storage_reward : MinerStats → State → ℕ
unsettled_storage_reward stats s = elim stats.storage_reward_index [
  | none ↦ 0
  | some own ↦ elim s.storage_reward_index [
    | none ↦ 0
    | some global ↦
        if str_eq stats.miner_address "" || storage_reward_weight stats == 0
        then 0
        else if leb global own
        then 0
        else capped ((global - own) * storage_reward_weight stats / index_scale)
  ]
]

abbrev pub put_miner : String → MinerStats → State → State
put_miner a stats s = record s { miners = insert a stats s.miners }

abbrev pub set_index : Option ℕ → MinerStats → MinerStats
set_index index stats = record stats { storage_reward_index = index }

-- What accrueStorageRewardForMinerLocked makes of a miner's entry.
unfoldable pub accrued_stats : MinerStats → State → MinerStats
accrued_stats stats s = elim stats.storage_reward_index [
  | none ↦ set_index s.storage_reward_index stats
  | some _ ↦
      (let amount = unsettled_storage_reward stats s in
        record stats {
          storage_reward_index = s.storage_reward_index;
          storage_reward_accrued =
              if ltb 0 amount
              then saturating_add stats.storage_reward_accrued amount
              else stats.storage_reward_accrued;
        })
]

module _ (env : Env) where
  unfoldable pub accrue_storage_reward : String → State → State
  accrue_storage_reward raw s =
      let address = normalize_address env raw in
      elim (lookup address s.miners) [
        | none ↦ s
        | some stats ↦ if str_eq address "" then s else put_miner address (accrued_stats stats s) s
      ]

  abbrev pub settled_stats : MinerStats → MinerStats
  settled_stats stats = record stats {
    storage_reward_accrued = 0;
    storage_rewards = saturating_add stats.storage_rewards stats.storage_reward_accrued;
    rewards = saturating_add stats.rewards stats.storage_reward_accrued;
  }

  -- settleStorageRewardForMinerLocked; `wall` stands in for a time that is not given.
  unfoldable pub settle_storage_reward : String → ℕ → ℕ → State → State × ℕ
  settle_storage_reward raw given wall s =
      let address = normalize_address env raw in
      let now = if given == 0 then wall else given in
      let s1 = accrue_storage_reward address s in
      if str_eq address "" then (s, 0) else elim (lookup address s1.miners) [
        | none ↦ (s1, 0)
        | some stats ↦
            if stats.storage_reward_accrued == 0 then (put_miner address stats s1, 0) else (
              put_miner address (settled_stats stats) (
                  vest_mining_reward env address stats.storage_reward_accrued "storage_pool" now
                    wall s1),
              stats.storage_reward_accrued,
            )
      ]
