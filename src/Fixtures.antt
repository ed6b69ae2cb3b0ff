-- ===== src/Fixtures.antt =====
-- Concrete data for the examples: an address format with two spellings of one address, a funded
-- account "0xAB", and a chain that knows it.
use falari.Prelude.{◌||◌, [], ◌∷◌, none, str_eq, refl}
use falari.Types.{Account}
use falari.Env.{Env}
use falari.State.{State, unset}
use falari.FeeMarket.{default_fee_market}

-- "0xab" and "0xAB" are the hex addresses, and the second is the checksum spelling.
abbrev pub env : Env
env = record {
  is_hex_address = λ a. str_eq a "0xab" || str_eq a "0xAB";
  checksum_address = λ a. "0xAB";
  checksum-hex = λ a h. refl;
  checksum-checksum = λ a h. refl;
}

-- An address format with three addresses in one spelling.
abbrev pub plain : Env
plain = record {
  is_hex_address = λ a. str_eq a "0xa1" || str_eq a "0xb2" || str_eq a "0xc3";
  checksum_address = λ a. a;
  checksum-hex = λ a h. h;
  checksum-checksum = λ a h. refl;
}

abbrev pub funded : Account
funded = record {
  address = "0xAB";
  public_key = "";
  balance = 500_000_000_000;
  nonce = 7;
  locked_stake = 0;
  locked_storage = 0;
  unbonding_balance = 0;
  pending_mining_rewards = 0;
  locked_bonus = 0;
}

abbrev pub chain : State
chain = record {
  chain_id = "falari";
  accounts = ("0xAB", funded) ∷ [];
  validators = [];
  consensus_validators = [];
  operator_map = [];
  miner_delegators = [];
  fee_market = default_fee_market;
  fee_charged_txs = [];
  stake_delegations = [];
  unbonding_entries = [];
  agent_keys = [];
  multisig_wallets = [];
  bridge_config = none;
  bridge_outbounds = [];
  bridge_outbound_nonce = 0;
  bridge_inbounds = [];
  bridge_consumed_messages = [];
  governance_operators = [];
  intents = [];
  deal_escrows = [];
  permanent_storage_funds = [];
  storage_fee_pool = record {
    total_locked = 0;
    total_paid = 0;
    total_refunded = 0;
    total_burned = 0;
    transferred_to_reward_pool = 0;
    repair_pool_transferred = 0;
    permanent_fund_balance = 0;
    insurance_reserve = 0;
  };
  storage_pricing = record { base_price = 0; minimum_fee = 0; permanent_duration = 0 };
  mining_reward_vestings = [];
  reward_pools = record {
    storage_remaining = 0;
    retrieval_remaining = 0;
    validator_remaining = 0;
    permanent_fund_remaining = 0;
    foundation_remaining = 0;
    tokens_released = 0;
  };
  mining_params = record {
    storage_reward_per_block = 7_000_000_000;
    validator_reward_per_block = 2_200_000_000;
    foundation_reward_per_block = 1_600_000_000;
    retrieval_reward_per_block = 1_000_000_000;
    block_production_reward_bps = 3000;
    permanent_fund_injection_bps = 2800;
    permanent_fund_takeover_seconds = 1_576_800_000;
    validator_commission_bps = 1000;
    max_consensus_validators = 21;
    min_consensus_validators = 2;
    availability_threshold_bps = 6000;
  };
  miners = [];
  storage_reward_index = none;
  storage_reward_remainder = 0;
  last_validator_release_at_unix = 0;
  foundation_address = "foundation";
  retrieval_address = "retrieval";
  blocks = 1;
  consensus_height = 1;
  consensus_round = 0;
  consensus_phase = unset;
  consensus_proposer = "";
  consensus_round_started_at_unix = 0;
  upgrade_plan = record { halt_height = 0; halt_time = 0 };
  proposer_turns = [];
}
