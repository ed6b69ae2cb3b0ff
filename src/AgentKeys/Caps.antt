-- ===== src/AgentKeys/Caps.antt =====
-- What an agent can spend, whatever it sends.
use falari.Prelude.{
  ℕ, ◌+◌, ◌*◌, ◌≤◌, ◌<◌, ◌≡◌, ap, le→ltb_false, lt→ltb, true, false, List, [], ◌∷◌, All,
  if◌then◌else◌, arith,
}
use falari.Arith.{u64_mod}
use falari.Types.{AgentKey}
use falari.AgentKeys.{
  agent_limit_exceeded, rollover_agent_key_day, apply_agent_key_usage, consume_agent_request,
  consume_all,
}

-- One request: what it adds to the lifetime counter, and that the counter stays under the limit.
consume_total :
    (key : AgentKey) (now spend : ℕ)
    → 0 < key.total_limit
    → key.total_limit < u64_mod
    → key.used_total ≤ key.total_limit
    → let (after, accepted) = consume_agent_request key now spend in
      (after.total_limit ≡ key.total_limit)
      × (after.used_total ≡ key.used_total + (if accepted then spend else 0))
      × (after.used_total ≤ key.total_limit)
unfolding consume_agent_request apply_agent_key_usage rollover_agent_key_day agent_limit_exceeded
consume_total key now spend pos fits h = ground arith

-- The lifetime cap: from a key whose lifetime counter is within its limit, the sum of all spends
-- that are accepted, over any sequence of requests at any times, never takes the key past the limit.
pub spend-le-total_limit :
    (key : AgentKey) (requests : List (ℕ × ℕ))
    → 0 < key.total_limit
    → key.total_limit < u64_mod
    → key.used_total ≤ key.total_limit
    → key.used_total + (consume_all key requests).1 ≤ key.total_limit
unfolding consume_all
spend-le-total_limit key [] pos fits h = omega arith
spend-le-total_limit key ((now, spend) ∷ rest) pos fits h =
    let (after, accepted) = consume_agent_request key now spend in
    let (limit, used, under) = consume_total key now spend pos fits h in
    ground (arith, limit, used, under, spend-le-total_limit after rest)

-- A limit that is not exceeded leaves room for the spend.
limit_room :
    (used spend limit : ℕ)
    → 0 < limit
    → agent_limit_exceeded used spend limit ≡ false
    → used + spend ≤ limit
unfolding agent_limit_exceeded
limit_room used spend limit pos h = ground arith

-- Inside the daily window nothing is reset.
rollover_inside :
    (key : AgentKey) (now : ℕ) → now ≤ key.day_reset_at → rollover_agent_key_day key now ≡ key
unfolding rollover_agent_key_day
rollover_inside key now h = rw (le→ltb_false key.day_reset_at now h)

usage_inside :
    (key : AgentKey) (now spend : ℕ)
    → now ≤ key.day_reset_at
    → key.used_today + spend < u64_mod
    → let after = apply_agent_key_usage key now spend in
      (after.daily_limit ≡ key.daily_limit)
      × (after.day_reset_at ≡ key.day_reset_at)
      × (after.used_today ≡ key.used_today + spend)
unfolding apply_agent_key_usage
usage_inside key now spend h fits = rw (rollover_inside key now h) (ground arith)

-- One request inside the current daily window.
consume_today :
    (key : AgentKey) (now spend : ℕ)
    → 0 < key.daily_limit
    → key.daily_limit < u64_mod
    → key.used_today ≤ key.daily_limit
    → now ≤ key.day_reset_at
    → let (after, accepted) = consume_agent_request key now spend in
      (after.daily_limit ≡ key.daily_limit)
      × (after.day_reset_at ≡ key.day_reset_at)
      × (after.used_today ≡ key.used_today + (if accepted then spend else 0))
      × (after.used_today ≤ key.daily_limit)
unfolding consume_agent_request
consume_today key now spend pos fits h inside = rw (rollover_inside key now inside) (
    ground (
      arith,
      limit_room key.used_today spend key.daily_limit pos,
      usage_inside key now spend inside,
    ))

abbrev pub Until : ℕ → ℕ × ℕ → Type 0
Until reset (now, _) = now ≤ reset

-- The daily cap: over any sequence of requests up to the key's next reset, the accepted spends and
-- what was used before stay within the daily limit together.
pub spend-le-daily_limit :
    (key : AgentKey) (requests : List (ℕ × ℕ))
    → 0 < key.daily_limit
    → key.daily_limit < u64_mod
    → key.used_today ≤ key.daily_limit
    → All (Until key.day_reset_at) requests
    → key.used_today + (consume_all key requests).1 ≤ key.daily_limit
unfolding consume_all
spend-le-daily_limit key [] pos fits h inside = omega arith
spend-le-daily_limit key ((now, spend) ∷ rest) pos fits h (here, later) =
    let (after, accepted) = consume_agent_request key now spend in
    let (limit, reset, used, under) = consume_today key now spend pos fits h here in
    ground (
      arith,
      limit,
      reset,
      used,
      under,
      spend-le-daily_limit after rest,
      ap (λ (t : ℕ). All (Until t) rest) reset,
    )

-- A fresh window without a lifetime limit accepts a spend of the whole daily limit.
fresh_accepts :
    (key : AgentKey) (now : ℕ)
    → (rollover_agent_key_day key now).used_today ≡ 0
    → key.total_limit ≡ 0
    → let (after, accepted) = consume_agent_request key now key.daily_limit in
      (accepted ≡ true)
      × (after.daily_limit ≡ key.daily_limit)
      × (after.total_limit ≡ 0)
      × (key.day_reset_at ≡ now → after.day_reset_at ≡ now)
unfolding consume_agent_request apply_agent_key_usage agent_limit_exceeded rollover_agent_key_day
fresh_accepts key now unused unlimited = ground arith

rollover_past :
    (key : AgentKey) (now : ℕ)
    → key.day_reset_at < now
    → (rollover_agent_key_day key now).used_today ≡ 0
unfolding rollover_agent_key_day
rollover_past key now h = rw (lt→ltb key.day_reset_at now h)

-- The window is not the UTC day that it is meant to be: its last second is the first of the next
-- day. A key that has not spent in the day before may spend its whole daily limit at midnight and
-- the whole limit again in the next second, so twice the limit in one day.
pub daily_limit_twice_in_a_day :
    (key : AgentKey) (day : ℕ)
    → 0 < key.daily_limit
    → key.daily_limit < u64_mod
    → key.used_today ≡ 0
    → key.total_limit ≡ 0
    → key.day_reset_at ≡ day * 86400
    → (consume_all key ((day * 86400, key.daily_limit) ∷ (day * 86400 + 1, key.daily_limit) ∷ [])).1
      ≡ 2 * key.daily_limit
unfolding consume_all
daily_limit_twice_in_a_day key day pos fits unused unlimited reset =
    let midnight = day * 86400 in
    let unused' : (rollover_agent_key_day key midnight).used_today ≡ 0 =
      rw (rollover_inside key midnight (omega arith)) unused in
    let (first, daily, total, same) = fresh_accepts key midnight unused' unlimited in
    let k1 = (consume_agent_request key midnight key.daily_limit).0 in
    let second =
      fresh_accepts k1 (midnight + 1) (rollover_past k1 (midnight + 1) (omega (arith, same reset)))
        total in
    ground (arith, first, daily, second.0)
