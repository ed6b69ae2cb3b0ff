-- ===== src/Types/Ledger.antt =====
-- Accounts, validators, delegations, agent keys, multisig wallets and the fee market.
use falari.Prelude.{ℕ, String, Bool, List}

pub record Account : Type 0 where
  pub address : String
  pub public_key : String
  pub balance : ℕ
  pub nonce : ℕ
  pub locked_stake : ℕ
  pub locked_storage : ℕ
  pub unbonding_balance : ℕ
  pub pending_mining_rewards : ℕ
  pub locked_bonus : ℕ

pub data ValidatorStatus : Type 0 where
  unregistered active jailed slashed exiting exited : ValidatorStatus

pub record ValidatorInfo : Type 0 where
  pub owner_address : String
  pub operator_address : String
  pub operator_public_key : String
  pub stake : ℕ
  pub delegated_stake : ℕ
  pub self_stake : ℕ
  pub status : ValidatorStatus
  pub delegator_count : ℕ
  pub rewards : ℕ
  pub delegation_rewards : ℕ
  pub commission_rate_bps : ℕ
  pub produced_blocks : ℕ

pub record StakeDelegation : Type 0 where
  pub delegator : String
  pub validator : String
  pub amount : ℕ
  pub since_unix : ℕ

pub record UnbondingEntry : Type 0 where
  pub id : String
  pub delegator : String
  pub validator : String
  pub amount : ℕ
  pub created_at_unix : ℕ
  pub matures_at_unix : ℕ

pub record AgentKey : Type 0 where
  pub key_id : String
  pub name : String
  pub master : String
  pub agent_pub : String
  pub nonce : ℕ
  pub permissions : List String
  pub daily_limit : ℕ
  pub total_limit : ℕ
  pub used_today : ℕ
  pub used_total : ℕ
  pub day_reset_at : ℕ
  pub created_at : ℕ
  pub expires_at : ℕ
  pub revoked : Bool

pub record MultisigWallet : Type 0 where
  pub address : String
  pub signers : List String
  pub threshold : ℕ
  pub nonce : ℕ
  pub salt : ℕ
  pub created_at_unix : ℕ

pub record FeeMultipliers : Type 0 where
  pub bridge_out : ℕ
  pub create_intent : ℕ
  pub upload_nft_template : ℕ
  pub register_validator : ℕ
  pub batch_commit : ℕ
  pub deploy_contract : ℕ
  pub call_contract : ℕ
  pub destroy_contract : ℕ

pub record FeeMarket : Type 0 where
  pub base_fee : ℕ
  pub target_block_txs : ℕ
  pub last_block_txs : ℕ
  pub updated_at_height : ℕ
  pub multipliers : FeeMultipliers

pub record ValidatorTurnWindow : Type 0 where
  pub successes : ℕ
  pub misses : ℕ
  pub turns : List Bool
  pub head : ℕ
