-- ===== src/Bridge/Config.antt =====
-- The operators' configuration of the bridge (applyBridgeSetConfigLocked), and hasAdminPermission
-- (internal/chain/admin_auth.go). The pool's address, a hash, is an argument.
use falari.Prelude.{
  ℕ, ◌+◌, ◌-◌, String, Bool, true, false, not, ◌||◌, List, [], ◌∷◌, Option, none, some, Result, ok,
  err, fail_if, ◌>>=◌, ◌>>◌, str_eq, ltb, ◌==◌, if◌then◌else◌,
}
use falari.Dict.{lookup, insert, has}
use falari.Types.{BridgeConfig, GovernanceOperator}
use falari.Env.{Env, normalize_address}
use falari.State.{State}
use falari.Bridge.{
  BridgeSetConfigRequest, BridgeError, bad_signature, not_operator, not_admin, outside_window,
  already_consumed, not_configured, unknown_action, min_zero, max_below_min, delay_too_short,
}

pub has_admin_permission : List String → Bool
has_admin_permission [] = false
has_admin_permission (p ∷ rest) =
    str_eq p "admin" || str_eq p "upgrade" || str_eq p "all" || has_admin_permission rest

abbrev pub config_timestamp_skew : ℕ
config_timestamp_skew = 300

abbrev distance : ℕ → ℕ → ℕ
distance a b = (a - b) + (b - a)

abbrev set_min : Option ℕ → BridgeConfig → Result BridgeError BridgeConfig
set_min none cfg = ok cfg
set_min (some n) cfg = if n == 0 then err min_zero else ok (record cfg { min_bridge_amount = n })

abbrev set_max : Option ℕ → BridgeConfig → Result BridgeError BridgeConfig
set_max none cfg = ok cfg
set_max (some n) cfg =
    if ltb n cfg.min_bridge_amount
    then err max_below_min
    else ok (record cfg { max_amount_per_day = n })

abbrev set_delay : Option ℕ → BridgeConfig → Result BridgeError BridgeConfig
set_delay none cfg = ok cfg
set_delay (some n) cfg =
    if ltb n 3600 then err delay_too_short else ok (record cfg { delay_seconds = n })

abbrev require_config : State → Result BridgeError BridgeConfig
require_config s = elim s.bridge_config [ none ↦ err not_configured | some cfg ↦ ok cfg ]

module _ (env : Env) where
  abbrev default_config : String → ℕ → BridgeConfig
  default_config pool_address now = record {
    enabled = true;
    bridge_pool_address = pool_address;
    relayer_address = "";
    min_bridge_amount = 0;
    delay_seconds = 86400;
    max_amount_per_day = 1_000_000_000_000;
    current_day_amount = 0;
    day_start_unix = now;
    paused = false;
  }

  -- The switch over the action: the configuration that it leads to.
  unfoldable pub proposed_config :
      BridgeSetConfigRequest → String → ℕ → State → Result BridgeError BridgeConfig
  proposed_config req pool_address now s =
      if str_eq req.action "pause"
      then (do cfg ← require_config s; ok (record cfg { paused = true }))
      else if str_eq req.action "unpause"
      then (do cfg ← require_config s; ok (record cfg { paused = false }))
      else if str_eq req.action "update_config"
      then (do
        let base : BridgeConfig = elim s.bridge_config [
          | none ↦ default_config pool_address now
          | some cfg ↦ cfg
        ]
        let with_relayer =
            if str_eq req.relayer_address ""
            then base
            else record base { relayer_address = normalize_address env req.relayer_address }
        c1 ← set_min req.min_bridge_amount with_relayer
        c2 ← set_max req.max_amount_per_day c1
        set_delay req.delay_seconds c2)
      else err unknown_action

  abbrev signing_operator : Option String → State → Result BridgeError GovernanceOperator
  signing_operator signer s = elim signer [
    | none ↦ err bad_signature
    | some address ↦ elim (lookup (normalize_address env address) s.governance_operators) [
      | none ↦ err not_operator
      | some operator ↦ if operator.enabled then ok operator else err not_operator
    ]
  ]

  unfoldable pub apply_bridge_set_config :
      BridgeSetConfigRequest
      → String
      → Option String
      → String
      → ℕ
      → State
      → Result BridgeError State
  apply_bridge_set_config req message signer pool_address now s = do
    operator ← signing_operator signer s
    fail_if (not (has_admin_permission operator.permissions)) not_admin
    fail_if (ltb config_timestamp_skew (distance now req.timestamp)) outside_window
    fail_if (has message s.bridge_consumed_messages) already_consumed
    cfg ← proposed_config req pool_address now s
    ok (record s {
      bridge_consumed_messages = insert message now s.bridge_consumed_messages;
      bridge_config = some cfg;
    })
