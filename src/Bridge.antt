-- ===== src/Bridge.antt =====
-- The bridge (internal/chain/bridge.go): transfers out, which lock tokens in the pool account,
-- claims, which release them, and the operators' configuration. The signers that are recovered from
-- signatures, the verdicts on them, the block clock and the two message hashes are arguments.
-- Config has the operators' requests, and Steps the runs of all three.
pub mod Config
pub mod Steps
pub mod Once
pub mod Volume
pub mod Pool
pub mod Claims
use falari.Prelude.{
  ℕ, ◌+◌, ◌-◌, ◌%◌, ◌^◌, String, Bool, true, false, not, ◌&&◌, ◌||◌, List, [], ◌∷◌, Option, none,
  some, Result, ok, err, fail_if, ◌>>=◌, ◌>>◌, str_eq, ltb, leb, ◌==◌, if◌then◌else◌,
}
use falari.Arith.{add64, ArithError, safe_add_u64}
use falari.Dict.{Dict, lookup, insert, has}
use falari.Types.{
  Account, BridgeConfig, BridgeOutbound, BridgeInbound, BridgeStatus, locked, pending, claimed,
  GovernanceOperator,
}
use falari.Text.{equal_fold}
use falari.Env.{Env, normalize_address}
use falari.State.{State}
use falari.Accounts.{account_locked}

pub record BridgeOutRequest : Type 0 where
  pub sender : String
  pub target_chain_id : String
  pub recipient : String
  pub amount : ℕ
  pub fee : ℕ
  pub nonce : ℕ
  pub public_key : String

pub record BridgeInClaimRequest : Type 0 where
  pub source_tx_hash : String
  pub source_block_number : ℕ
  pub recipient : String
  pub amount : ℕ
  pub nonce : ℕ

pub record BridgeSetConfigRequest : Type 0 where
  pub action : String
  pub relayer_address : String
  pub min_bridge_amount : Option ℕ
  pub max_amount_per_day : Option ℕ
  pub delay_seconds : Option ℕ
  pub timestamp : ℕ

pub data BridgeError : Type 0 where
  not_enabled paused below_minimum limit_reached limit_exceeded overflows : BridgeError
  insufficient_balance bad_nonce bad_signature not_relayer already_consumed : BridgeError
  delay_not_elapsed already_claimed amount_mismatch insufficient_pool : BridgeError
  not_operator not_admin outside_window not_configured unknown_action : BridgeError
  min_zero max_below_min delay_too_short : BridgeError

abbrev pub lift : Result ArithError ℕ → Result BridgeError ℕ
lift (ok n) = ok n
lift (err _) = err overflows

-- The daily window: a day after its start the count begins again.
abbrev pub roll_window : ℕ → BridgeConfig → BridgeConfig
roll_window now cfg =
    if leb 86400 (now - cfg.day_start_unix)
    then record cfg { day_start_unix = now; current_day_amount = 0 }
    else cfg

-- What is left of the daily limit.
abbrev pub within_day : ℕ → BridgeConfig → Result BridgeError (Unit {0})
within_day amount cfg = do
  fail_if (leb cfg.max_amount_per_day cfg.current_day_amount) limit_reached
  fail_if (ltb (cfg.max_amount_per_day - cfg.current_day_amount) amount) limit_exceeded

-- A write of a map with numbers as keys.
pub put_outbound : ℕ → BridgeOutbound → List (ℕ × BridgeOutbound) → List (ℕ × BridgeOutbound)
put_outbound n ob [] = (n, ob) ∷ []
put_outbound n ob ((k, old) ∷ rest) =
    let rest' = put_outbound n ob rest in if k == n then (n, ob) ∷ rest else (k, old) ∷ rest'

abbrev pub with_config : BridgeConfig → State → State
with_config cfg s = record s { bridge_config = some cfg }

-- The configuration with which a transfer goes on, if the bridge is open.
abbrev pub open_bridge : State → Result BridgeError BridgeConfig
open_bridge s = elim s.bridge_config [
  | none ↦ err not_enabled
  | some cfg ↦
      if not cfg.enabled then err not_enabled else if cfg.paused then err paused else ok cfg
]

-- A step that fails after the window has been rolled leaves the rolled window behind.
abbrev pub settle : State → Result BridgeError State → State × Option BridgeError
settle s (ok s') = (s', none)
settle s (err e) = (s, some e)

abbrev pub is_claimed : BridgeStatus → Bool
is_claimed claimed = true
is_claimed _ = false

module _ (env : Env) where
  abbrev pub bridge_out_writes : BridgeOutRequest → BridgeConfig → ℕ → ℕ → ℕ → State → State
  bridge_out_writes req cfg now pool_balance day_amount s =
      let sender = normalize_address env req.sender in
      let account = account_locked env s sender in
      let pool = account_locked env s cfg.bridge_pool_address in
      let debited = record account {
        balance = account.balance - (req.amount + req.fee);
        nonce = add64 account.nonce 1;
        public_key = if str_eq req.public_key "" then account.public_key else req.public_key;
      } in
      let nonce = add64 s.bridge_outbound_nonce 1 in
      record s {
        accounts =
            insert cfg.bridge_pool_address (record pool { balance = pool_balance })
              (insert sender debited s.accounts);
        bridge_outbound_nonce = nonce;
        bridge_outbounds =
            put_outbound nonce
              (record {
                nonce = nonce;
                target_chain_id = req.target_chain_id;
                sender = sender;
                recipient = req.recipient;
                amount = req.amount;
                fee = req.fee;
                status = locked;
                locked_at_unix = now;
                claimable_after = now + cfg.delay_seconds;
              })
              s.bridge_outbounds;
        bridge_config = some (record cfg { current_day_amount = day_amount });
      }

  -- The part of applyBridgeOutLocked after the window has been rolled.
  unfoldable pub bridge_out_checked :
      BridgeOutRequest → BridgeConfig → ℕ → Bool → State → Result BridgeError State
  bridge_out_checked req cfg now signed s = do
    let account = account_locked env s (normalize_address env req.sender)
    within_day req.amount cfg
    total ← lift (safe_add_u64 req.amount req.fee)
    fail_if (ltb account.balance total) insufficient_balance
    fail_if (not (req.nonce == account.nonce)) bad_nonce
    fail_if (not signed) bad_signature
    pool_balance ← lift (safe_add_u64 (account_locked env s cfg.bridge_pool_address).balance total)
    day_amount ← lift (safe_add_u64 cfg.current_day_amount req.amount)
    ok (bridge_out_writes req cfg now pool_balance day_amount s)

  unfoldable pub apply_bridge_out : BridgeOutRequest → ℕ → Bool → State → State × Option BridgeError
  apply_bridge_out req now signed s = elim (open_bridge s) [
    | err e ↦ (s, some e)
    | ok cfg ↦
        if ltb req.amount cfg.min_bridge_amount
        then (s, some below_minimum)
        else (let cfg' = roll_window now cfg in
            settle (with_config cfg' s)
              (bridge_out_checked req cfg' now signed (with_config cfg' s)))
  ]

  abbrev pub new_inbound : BridgeInClaimRequest → ℕ → BridgeInbound
  new_inbound req now = record {
    nonce = req.nonce;
    source_tx_hash = req.source_tx_hash;
    source_block_number = req.source_block_number;
    recipient = normalize_address env req.recipient;
    amount = req.amount;
    status = pending;
    detected_at_unix = now;
    claimable_after = now;
  }

  abbrev pub inbound_of : BridgeInClaimRequest → ℕ → State → BridgeInbound
  inbound_of req now s = elim (lookup req.source_tx_hash s.bridge_inbounds) [
    | none ↦ new_inbound req now
    | some inbound ↦ inbound
  ]

  abbrev pub claim_writes :
      BridgeInClaimRequest → String → BridgeInbound → BridgeConfig → ℕ → ℕ → State → State
  claim_writes req message inbound cfg now balance s =
      let recipient = normalize_address env inbound.recipient in
      let pool = account_locked env s cfg.bridge_pool_address in
      let dest = account_locked env s recipient in
      record s {
        accounts =
            insert recipient (record dest { balance = balance })
              (insert cfg.bridge_pool_address
                (record pool { balance = pool.balance - inbound.amount }) s.accounts);
        bridge_inbounds =
            insert req.source_tx_hash (record inbound { status = claimed }) s.bridge_inbounds;
        bridge_consumed_messages = insert message now s.bridge_consumed_messages;
        bridge_config =
            some (record cfg { current_day_amount = add64 cfg.current_day_amount req.amount });
      }

  -- The part of applyBridgeInClaimLocked after the window has been rolled.
  unfoldable pub claim_checked :
      BridgeInClaimRequest → String → BridgeConfig → ℕ → State → Result BridgeError State
  claim_checked req message cfg now s = do
    within_day req.amount cfg
    let inbound = inbound_of req now s
    fail_if (ltb now inbound.claimable_after) delay_not_elapsed
    fail_if (is_claimed inbound.status) already_claimed
    fail_if (not (inbound.amount == req.amount)) amount_mismatch
    fail_if (ltb (account_locked env s cfg.bridge_pool_address).balance inbound.amount)
        insufficient_pool
    balance ← lift (
        safe_add_u64 (account_locked env s (normalize_address env inbound.recipient)).balance
          inbound.amount)
    ok (claim_writes req message inbound cfg now balance s)

  unfoldable pub apply_bridge_in_claim :
      BridgeInClaimRequest → String → Option String → ℕ → State → State × Option BridgeError
  apply_bridge_in_claim req message signer now s = elim (open_bridge s) [
    | err e ↦ (s, some e)
    | ok cfg ↦ elim signer [
      | none ↦ (s, some bad_signature)
      | some address ↦
          if not (equal_fold address cfg.relayer_address)
          then (s, some not_relayer)
          else if has message s.bridge_consumed_messages
          then (s, some already_consumed)
          else if ltb req.amount cfg.min_bridge_amount
          then (s, some below_minimum)
          else (let cfg' = roll_window now cfg in
              settle (with_config cfg' s) (claim_checked req message cfg' now (with_config cfg' s)))
    ]
  ]
