-- ===== src/Types/Bridging.antt =====
-- The bridge's configuration and its outbound, inbound and consumed records.
use falari.Prelude.{ℕ, String, Bool, List}

pub record BridgeConfig : Type 0 where
  pub enabled : Bool
  pub bridge_pool_address : String
  pub relayer_address : String
  pub min_bridge_amount : ℕ
  pub delay_seconds : ℕ
  pub max_amount_per_day : ℕ
  pub current_day_amount : ℕ
  pub day_start_unix : ℕ
  pub paused : Bool

pub data BridgeStatus : Type 0 where
  locked pending claimed : BridgeStatus

pub record BridgeOutbound : Type 0 where
  pub nonce : ℕ
  pub target_chain_id : String
  pub sender : String
  pub recipient : String
  pub amount : ℕ
  pub fee : ℕ
  pub status : BridgeStatus
  pub locked_at_unix : ℕ
  pub claimable_after : ℕ

pub record BridgeInbound : Type 0 where
  pub nonce : ℕ
  pub source_tx_hash : String
  pub source_block_number : ℕ
  pub recipient : String
  pub amount : ℕ
  pub status : BridgeStatus
  pub detected_at_unix : ℕ
  pub claimable_after : ℕ

pub record GovernanceOperator : Type 0 where
  pub enabled : Bool
  pub permissions : List String
