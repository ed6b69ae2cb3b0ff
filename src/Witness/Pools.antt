-- ===== src/Witness/Pools.antt =====
-- Examples for the release of tokens: full pools, a validator with one delegator, and a miner.
use falari.Prelude.{◌+◌, ◌*◌, ◌-◌, ◌≤◌, ◌≡◌, refl, none, [], ◌∷◌, arith, sum_by}
use falari.Dict.{total}
use falari.Dict.Laws.{str_ne-of-false}
use falari.Types.{ValidatorInfo, StakeDelegation, MinerStats, ValidatorStatus, MinerStatus}
use falari.Env.{normalize_address}
use falari.State.{State}
use falari.Accounts.Funds.{holdings, circulating}
use falari.TokenRelease.{
  release_foundation_per_block, release_retrieval_per_block, release_storage_per_block,
  unsettled_storage_reward, index_scale,
}
use falari.TokenRelease.Validators.{
  validator_delegations, validator_locked, distribute_validator_reward, no_validator,
}
use falari.TokenRelease.Shares.{free, owned, share_of}
use falari.TokenRelease.Reward.{own_part, distribute_validator_reward_lem}
use falari.TokenRelease.Index.{release_claims_covered}
use falari.Fixtures.{plain, chain, funded}

abbrev validator : ValidatorInfo
validator = record (no_validator "0xb2") {
  stake = 300;
  self_stake = 300;
  delegated_stake = 100;
  status = ValidatorStatus.active;
  delegator_count = 1;
}

abbrev delegation : StakeDelegation
delegation = record { validator = "0xb2"; delegator = "0xc3"; amount = 100; since_unix = 1000 }

abbrev miner : MinerStats
miner = record {
  miner_address = "0xa1";
  status = MinerStatus.active;
  capacity_bytes = 5000;
  used_bytes = 1000;
  reserved_bytes = 0;
  effective_weight = 10000;
  storage_reward_index = none;
  storage_reward_accrued = 0;
  storage_rewards = 0;
  rewards = 0;
}

abbrev full : State
full = record chain {
  accounts = ("0xAB", funded) ∷ [];
  validators = ("0xb2", validator) ∷ [];
  stake_delegations = ("0xb2:0xc3", delegation) ∷ [];
  miners = ("0xa1", miner) ∷ [];
  reward_pools = record {
    storage_remaining = 1_000_000_000_000_000_000;
    retrieval_remaining = 500_000_000_000_000_000;
    validator_remaining = 500_000_000_000_000_000;
    permanent_fund_remaining = 100;
    foundation_remaining = 500_000_000_000_000_000;
    tokens_released = 0;
  };
}

abbrev f : State
f = release_foundation_per_block plain full

abbrev r : State
r = release_retrieval_per_block plain full

abbrev storage : State
storage = release_storage_per_block full

release_claims_covered_example :
    (total (λ stats. unsettled_storage_reward stats storage) full.miners * index_scale
      ≤ (full.reward_pools.storage_remaining
            - storage.reward_pools.storage_remaining
            - (storage.reward_pools.permanent_fund_remaining
                - full.reward_pools.permanent_fund_remaining))
          * index_scale
        + full.storage_reward_remainder)
    × (storage.reward_pools.tokens_released
        ≡ full.reward_pools.tokens_released
          + (full.reward_pools.storage_remaining - storage.reward_pools.storage_remaining))
release_claims_covered_example = release_claims_covered full (refl, tt) (omega arith) (omega arith)

abbrev rewarded : State
rewarded = distribute_validator_reward plain "0xb2" 1000 86500 full

-- The delegator with 100 of 400 in stake gets all that the validator's own part leaves.
distribute_validator_reward_lem_example :
    let own = own_part plain "0xb2" 1000 full in
    (circulating rewarded.accounts ≡ circulating full.accounts + 1000)
    × (rewarded.reward_pools ≡ full.reward_pools)
    × (free "0xc3" rewarded ≡ free "0xc3" full)
    × (owned "0xc3" full + 0 + sum_by (share_of plain "0xc3" (1000 - own) 100) (delegation ∷ [])
        ≤ owned "0xc3" rewarded)
unfolding normalize_address holdings validator_delegations validator_locked
distribute_validator_reward_lem_example =
    distribute_validator_reward_lem plain "0xb2" 1000 86500 full "0xc3" (omega arith)
      (str_ne-of-false "0xb2" "" refl) ((str_ne-of-false "0xc3" "" refl), tt) (omega arith)
      (omega arith) (omega arith)
