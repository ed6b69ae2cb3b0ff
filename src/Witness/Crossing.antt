-- ===== src/Witness/Crossing.antt =====
-- Examples for the bridge.
use falari.Prelude.{◌+◌, ◌≤◌, ◌≡◌, ◌≢◌, refl, [], ◌∷◌, some, none, arith, true, false}
use falari.Arith.{safe_add_u64}
use falari.Types.{BridgeConfig}
use falari.Text.{equal_fold, same_folded, to_lower}
use falari.Env.{normalize_address}
use falari.State.{State}
use falari.Accounts.{account_at, account_locked, empty_account}
use falari.Bridge.{
  BridgeOutRequest, BridgeInClaimRequest, apply_bridge_out, apply_bridge_in_claim,
  bridge_out_checked, claim_checked,
}
use falari.Bridge.Steps.{out, claim, run}
use falari.Bridge.Once.{claim_once}
use falari.Bridge.Volume.{crossed, crossed-le-daily_limit}
use falari.Fixtures.{env, chain, funded}

abbrev config : BridgeConfig
config = record {
  enabled = true;
  bridge_pool_address = "pool";
  relayer_address = "relayer";
  min_bridge_amount = 1;
  delay_seconds = 3600;
  max_amount_per_day = 100;
  current_day_amount = 20;
  day_start_unix = 0;
  paused = false;
}

abbrev bridged : State
bridged = record chain {
  accounts = ("0xAB", funded) ∷ ("pool", record (empty_account "pool") { balance = 70 }) ∷ [];
  bridge_config = some config;
}

abbrev leave : BridgeOutRequest
leave = record {
  sender = "0xab";
  target_chain_id = "eth";
  recipient = "there";
  amount = 30;
  fee = 2;
  nonce = 7;
  public_key = "";
}

abbrev arrive : BridgeInClaimRequest
arrive = record {
  source_tx_hash = "burn";
  source_block_number = 5;
  recipient = "bob";
  amount = 50;
  nonce = 1;
}

leave_accepted : (apply_bridge_out env leave 100 true bridged).1 ≡ none
unfolding apply_bridge_out bridge_out_checked account_locked account_at normalize_address
    safe_add_u64
leave_accepted = refl

arrive_accepted : (apply_bridge_in_claim env arrive "m" (some "relayer") 100 bridged).1 ≡ none
unfolding apply_bridge_in_claim claim_checked account_locked account_at normalize_address
    safe_add_u64 equal_fold same_folded to_lower
arrive_accepted = refl

claim_once_example :
    (apply_bridge_in_claim env arrive "other" (some "relayer") 200 (
      run env
        (out leave 150 true ∷ [])
        (apply_bridge_in_claim env arrive "m" (some "relayer") 100 bridged).0)).1
    ≢ none
claim_once_example =
    claim_once env arrive arrive "m" "other" (some "relayer") (some "relayer") 100 200
      (out leave 150 true ∷ []) bridged arrive_accepted refl

crossed-le-daily_limit_example :
    20 + crossed env (out leave 100 true ∷ claim arrive "m" (some "relayer") 200 ∷ []) bridged ≤ 100
crossed-le-daily_limit_example =
    crossed-le-daily_limit env (out leave 100 true ∷ claim arrive "m" (some "relayer") 200 ∷ [])
      bridged config refl
      ((omega arith, omega arith, omega arith), ((omega arith, omega arith), tt)) (omega arith)
      (omega arith)
