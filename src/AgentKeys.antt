-- ===== src/AgentKeys.antt =====
-- Agent keys, the scoped credentials of an account (internal/chain/agent_key.go and
-- agent_request_auth.go): the limits on what a key may spend and the counters that hold them.
-- The requests that create and change keys are in Requests, their permissions in Permissions.
pub mod Permissions
pub mod Scope
pub mod Requests
pub mod Replay
pub mod Caps
pub mod Lifecycle
use falari.Prelude.{
  ℕ, ◌+◌, ◌-◌, ◌*◌, ◌/◌, ◌%◌, ◌^◌, String, Bool, true, false, List, [], ◌∷◌, Option, none, some,
  ltb, ◌==◌, if◌then◌else◌,
}
use falari.Arith.{add64, max_u64}
use falari.Types.{AgentKey}

-- The midnight (UTC) that follows a Unix time.
unfoldable pub start_of_next_day_at : ℕ → ℕ
start_of_next_day_at base = (base / 86400 + 1) * 86400

unfoldable pub agent_limit_exceeded : ℕ → ℕ → ℕ → Bool
agent_limit_exceeded used spend limit =
    if limit == 0 then false else if ltb limit used then true else ltb (limit - used) spend

unfoldable pub rollover_agent_key_day : AgentKey → ℕ → AgentKey
rollover_agent_key_day key block_time =
    if ltb key.day_reset_at block_time
    then record key { used_today = 0; day_reset_at = start_of_next_day_at block_time }
    else key

-- A counter that stops at math.MaxUint64.
abbrev count_up : ℕ → ℕ → ℕ
count_up used spend = if ltb (max_u64 - spend) used then max_u64 else add64 used spend

unfoldable pub apply_agent_key_usage : AgentKey → ℕ → ℕ → AgentKey
apply_agent_key_usage key block_time spend =
    let k = rollover_agent_key_day key block_time in
    record k {
      nonce = add64 k.nonce 1;
      used_today = count_up k.used_today spend;
      used_total = count_up k.used_total spend;
    }

-- consumeAgentRequestLocked on the key that it finds. The roll-over stays also where a limit then
-- refuses the request.
unfoldable pub consume_agent_request : AgentKey → ℕ → ℕ → AgentKey × Bool
consume_agent_request key now spend =
    let k = rollover_agent_key_day key now in
    if agent_limit_exceeded k.used_today spend k.daily_limit
    then (k, false)
    else if agent_limit_exceeded k.used_total spend k.total_limit
    then (k, false)
    else (apply_agent_key_usage k now spend, true)

-- A run of requests, each by its block time and its spend, with the sum of what was accepted.
unfoldable pub consume_all : AgentKey → List (ℕ × ℕ) → AgentKey × ℕ
consume_all key [] = (key, 0)
consume_all key ((now, spend) ∷ rest) =
    let (key', accepted) = consume_agent_request key now spend in
    let (key'', spent) = consume_all key' rest in (key'', if accepted then spend + spent else spent)
