-- ===== src/State.antt =====
-- The chain state (`State` of internal/chain/state.go), as far as the modelled components use it.
-- `blocks` is the number of blocks; the maps of pointers are maps whose entries are rewritten.
use falari.Prelude.{ℕ, String, Bool, Option, List}
use falari.Dict.{Dict}
use falari.Types.{
  Account, ValidatorInfo, StakeDelegation, UnbondingEntry, AgentKey, MultisigWallet, FeeMarket,
  BridgeConfig, BridgeOutbound, BridgeInbound, GovernanceOperator, ValidatorTurnWindow, Intent,
  DealEscrow, PermanentStorageFund, StorageFeePool, StoragePricing, MiningRewardVestingBucket,
  Pools, MiningParams, MinerStats,
}

-- consensus.UpgradePlan (internal/consensus/types.go)
pub record UpgradePlan : Type 0 where
  pub halt_height : ℕ
  pub halt_time : ℕ

pub data Phase : Type 0 where
  unset propose prevote precommit commit wait : Phase

pub record State : Type 0 where
  pub chain_id : String
  pub accounts : Dict Account
  pub validators : Dict ValidatorInfo
  pub consensus_validators : Dict Bool
  pub operator_map : Dict String
  pub miner_delegators : Dict ℕ  -- Miners[a].DelegatorCount
  pub fee_market : FeeMarket
  pub fee_charged_txs : Dict Bool
  pub stake_delegations : Dict StakeDelegation
  pub unbonding_entries : Dict UnbondingEntry
  pub agent_keys : Dict AgentKey
  pub multisig_wallets : Dict MultisigWallet
  pub bridge_config : Option BridgeConfig
  pub bridge_outbounds : List (ℕ × BridgeOutbound)
  pub bridge_outbound_nonce : ℕ
  pub bridge_inbounds : Dict BridgeInbound
  pub bridge_consumed_messages : Dict ℕ
  pub governance_operators : Dict GovernanceOperator
  pub intents : Dict Intent
  pub deal_escrows : Dict DealEscrow
  pub permanent_storage_funds : Dict PermanentStorageFund
  pub storage_fee_pool : StorageFeePool
  pub storage_pricing : StoragePricing
  pub mining_reward_vestings : Dict MiningRewardVestingBucket
  pub reward_pools : Pools
  pub mining_params : MiningParams  -- as miningParamsLocked returns them
  pub miners : Dict MinerStats
  pub storage_reward_index : Option ℕ
  pub storage_reward_remainder : ℕ
  pub last_validator_release_at_unix : ℕ
  pub foundation_address : String
  pub retrieval_address : String
  pub blocks : ℕ
  pub consensus_height : ℕ
  pub consensus_round : ℕ
  pub consensus_phase : Phase
  pub consensus_proposer : String
  pub consensus_round_started_at_unix : ℕ
  pub upgrade_plan : UpgradePlan
  pub proposer_turns : Dict ValidatorTurnWindow
