-- ===== src/Types/Storage.antt =====
-- Storage deals: intents, their escrows, the permanent funds and the fee pool; vesting buckets.
use falari.Prelude.{ℕ, String, Bool, Option}
use falari.Dict.{Dict}

pub data IntentStatus : Type 0 where
  uploading partial finalized expired deleted : IntentStatus

pub record ErasurePolicy : Type 0 where
  pub data_shards : ℕ
  pub parity_shards : ℕ

pub record Intent : Type 0 where
  pub intent_id : String
  pub user : String
  pub file_name : String
  pub file_size : ℕ
  pub duration : ℕ  -- Policy.Duration, 0 for permanent storage
  pub locked_fee : ℕ
  pub paid_fee : ℕ
  pub refunded_fee : ℕ
  pub burned_fee : ℕ
  pub status : IntentStatus
  pub storage_status : String
  pub expires_at_unix : ℕ
  pub created_at : ℕ
  pub updated_at : ℕ
  pub permanent_fund_balance : ℕ
  pub permanent_fund_paid : ℕ
  pub burn_deferred : Bool
  pub erasure : ErasurePolicy
  pub renewable : Bool  -- Policy.Renewable
  pub auto_renew : Bool  -- Policy.AutoRenew

pub record DealEscrow : Type 0 where
  pub intent_id : String
  pub user : String
  pub locked_fee : ℕ
  pub paid_fee : ℕ
  pub refunded_fee : ℕ
  pub burned_fee : ℕ
  pub accrued_fee : ℕ
  pub start_at_unix : ℕ
  pub expires_at_unix : ℕ
  pub last_accrued_at_unix : ℕ
  pub status : String
  pub permanent : Bool

pub record PermanentStorageFund : Type 0 where
  pub intent_id : String
  pub user : String
  pub balance : ℕ
  pub contributed : ℕ
  pub paid : ℕ
  pub burned : ℕ
  pub sustainable_daily_rate : ℕ
  pub initial_daily_rate : ℕ
  pub created_at_unix : ℕ
  pub updated_at_unix : ℕ
  pub last_payout_unix : ℕ
  pub closed : Bool
  pub closed_reason : String
  pub closed_at_unix : ℕ
  pub transferred_to_pool : ℕ

pub record StorageFeePool : Type 0 where
  pub total_locked : ℕ
  pub total_paid : ℕ
  pub total_refunded : ℕ
  pub total_burned : ℕ
  pub transferred_to_reward_pool : ℕ
  pub repair_pool_transferred : ℕ
  pub permanent_fund_balance : ℕ
  pub insurance_reserve : ℕ

pub record MiningRewardVestingBucket : Type 0 where
  pub bucket_id : String
  pub address : String
  pub day_unix : ℕ
  pub total : ℕ
  pub released : ℕ
  pub created_at_unix : ℕ
  pub last_released_at_unix : ℕ
  pub sources : Dict ℕ

pub record StoragePricing : Type 0 where
  pub base_price : ℕ
  pub minimum_fee : ℕ
  pub permanent_duration : ℕ

-- reward.Pools (internal/reward/pools.go)
pub record Pools : Type 0 where
  pub storage_remaining : ℕ
  pub retrieval_remaining : ℕ
  pub validator_remaining : ℕ
  pub permanent_fund_remaining : ℕ
  pub foundation_remaining : ℕ
  pub tokens_released : ℕ

-- MiningParams (internal/chain/config.go), as far as releases and payments read it.
pub record MiningParams : Type 0 where
  pub storage_reward_per_block : ℕ
  pub validator_reward_per_block : ℕ
  pub foundation_reward_per_block : ℕ
  pub retrieval_reward_per_block : ℕ
  pub block_production_reward_bps : ℕ
  pub permanent_fund_injection_bps : ℕ
  pub permanent_fund_takeover_seconds : ℕ
  pub validator_commission_bps : ℕ
  pub max_consensus_validators : ℕ
  pub min_consensus_validators : ℕ
  pub availability_threshold_bps : ℕ

pub data MinerStatus : Type 0 where
  active degraded jailed exiting exited : MinerStatus

-- wire.MinerStats, as far as storage rewards read it; a reward index is kept as decimal text, empty
-- before the first one.
pub record MinerStats : Type 0 where
  pub miner_address : String
  pub status : MinerStatus
  pub capacity_bytes : ℕ
  pub used_bytes : ℕ
  pub reserved_bytes : ℕ
  pub effective_weight : ℕ
  pub storage_reward_index : Option ℕ
  pub storage_reward_accrued : ℕ
  pub storage_rewards : ℕ
  pub rewards : ℕ
