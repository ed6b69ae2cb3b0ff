-- ===== src/TokenRelease/Streams.antt =====
-- What the release of a pool does to the pools and the accounts, and what a validator's share is.
use falari.Prelude.{ℕ, ◌+◌, ◌*◌, ◌/◌, ◌≤◌, String, ◌≡◌, ◌⊎◌, ◌≢◌, arith}
use native.Mathlib.Nat.{div-mul-le_self, mul-le-mul_left}
use falari.Arith.{u64_mod, mul64}
use falari.Env.{Env, normalize_address}
use falari.State.{State}
use falari.Types.{Pools}
use falari.Accounts.{account_at}
use falari.Accounts.Funds.{circulating}
use falari.Escrow.{least}
use falari.TokenRelease.{permanent_fund_cap, permanent_fund_injection_amount}
use falari.TokenRelease.Validators.{reward_share}

bps_share-le : (gross bps : ℕ) → bps ≤ 10000 → mul64 gross bps / 10000 ≤ gross
bps_share-le gross bps h = omega (arith, mul-le-mul_left {m = bps} {n = 10000} gross h)

-- The carve-out for the permanent fund is at most the release, and never fills the fund past its
-- cap: a fund below the cap stays at or below it.
pub injection_bounds :
    (gross : ℕ) (s : State)
    → (permanent_fund_injection_amount gross s ≤ gross)
      × ((permanent_fund_injection_amount gross s ≡ 0)
          ⊎ (s.reward_pools.permanent_fund_remaining + permanent_fund_injection_amount gross s
              ≤ permanent_fund_cap))
unfolding permanent_fund_injection_amount
injection_bounds gross s =
    let bps = least s.mining_params.permanent_fund_injection_bps 10000 in
    ground (arith, bps_share-le gross bps (ground arith))

-- The share of a validator is computed on uint64. Where the product of the amount and its power
-- does not fit in 64 bits, the share falls short of its part by at least 2^64 over the total power.
pub reward_share_short :
    (amount power total : ℕ)
    → u64_mod ≤ amount * power
    → reward_share amount power total * total + u64_mod ≤ amount * power
reward_share_short amount power total wraps =
    omega (arith, div-mul-le_self (mul64 amount power) total)

-- What a release from a pool to one recipient does: what all accounts own and what the pool holds
-- keep their sum; so do the count of released tokens and the pool, and the recipient's own balance
-- and the pool. Without a recipient the state stays as it is, and with one the pool gives
-- `per_block`, or what it has if that is less.
abbrev pub PaysOut : Env → String → ℕ → (Pools → ℕ) → State → State → Type 0
PaysOut env recipient per_block pool s s' =
    let a = normalize_address env recipient in
    (circulating s'.accounts + pool s'.reward_pools ≡ circulating s.accounts + pool s.reward_pools)
    × (s'.reward_pools.tokens_released + pool s'.reward_pools
        ≡ s.reward_pools.tokens_released + pool s.reward_pools)
    × ((account_at s'.accounts a).balance + pool s'.reward_pools
        ≡ (account_at s.accounts a).balance + pool s.reward_pools)
    × (((recipient ≡ "") × (s' ≡ s))
        ⊎ ((recipient ≢ "")
            × (pool s'.reward_pools + least per_block (pool s.reward_pools) ≡ pool s.reward_pools)))

abbrev pub foundation_pool : Pools → ℕ
foundation_pool pools = pools.foundation_remaining

abbrev pub retrieval_pool : Pools → ℕ
retrieval_pool pools = pools.retrieval_remaining
