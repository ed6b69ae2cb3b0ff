-- ===== src/Bridge/Pool.antt =====
-- What bridge transactions do to the pool account and to the sum over all accounts.
use falari.Prelude.{
  ℕ, ◌+◌, ◌≤◌, ◌<◌, String, Bool, none, some, ◌≡◌, ◌≢◌, ◌∙◌, ok, err, ltb, if◌then◌else◌, ap, arith,
}
use falari.Arith.{u64_mod, safe_add_u64, overflow}
use falari.Types.{BridgeConfig}
use falari.Env.{Env, normalize_address, normalize_address_idempotent}
use falari.State.{State}
use falari.Accounts.{account_at, account_locked}
use falari.Accounts.Funds.{holdings, circulating, circulating-move, account_at-insert_self}
use falari.Bridge.{
  BridgeOutRequest, BridgeInClaimRequest, bridge_out_checked, apply_bridge_out, claim_checked,
  inbound_of, claim_writes, with_config, roll_window, bridge_out_writes,
}

-- Where the second argument is a uint64, the check is exact.
pub safe_add_u64-of-lt :
    (a b : ℕ)
    → b < u64_mod
    → safe_add_u64 a b ≡ (if ltb (a + b) u64_mod then ok (a + b) else err overflow)
unfolding safe_add_u64
safe_add_u64-of-lt a b h = ground arith

-- The roll of the window keeps the pool and the limit.
pub roll_window-same :
    (now : ℕ) (cfg : BridgeConfig)
    → ((roll_window now cfg).bridge_pool_address ≡ cfg.bridge_pool_address)
      × ((roll_window now cfg).max_amount_per_day ≡ cfg.max_amount_per_day)
roll_window-same now cfg = ground arith

module _ (env : Env) where
  pub bridge_out_checked-ok :
      (req : BridgeOutRequest) (cfg : BridgeConfig) (now : ℕ) (signed : Bool) (s s' : State)
      → req.amount < u64_mod
      → req.fee < u64_mod
      → bridge_out_checked env req cfg now signed s ≡ ok s'
      → let total = req.amount + req.fee in
        let pool = (account_locked env s cfg.bridge_pool_address).balance in
        (total ≤ (account_locked env s (normalize_address env req.sender)).balance)
        × (cfg.current_day_amount + req.amount ≤ cfg.max_amount_per_day)
        × (pool + total < u64_mod)
        × (s'
            ≡ bridge_out_writes env req cfg now
                (pool + total)
                (cfg.current_day_amount + req.amount)
                s)
  unfolding bridge_out_checked
  bridge_out_checked-ok req cfg now signed s s' ha hf h = ground (
    arith,
    safe_add_u64-of-lt req.amount req.fee hf,
    safe_add_u64-of-lt (account_locked env s cfg.bridge_pool_address).balance
        (req.amount + req.fee),
    safe_add_u64-of-lt cfg.current_day_amount req.amount ha,
  )

  pub claim_checked-ok :
      (req : BridgeInClaimRequest) (message : String) (cfg : BridgeConfig) (now : ℕ) (s s' : State)
      → req.amount < u64_mod
      → claim_checked env req message cfg now s ≡ ok s'
      → let inbound = inbound_of env req now s in
        let dest = (account_locked env s (normalize_address env inbound.recipient)).balance in
        (req.amount ≤ (account_locked env s cfg.bridge_pool_address).balance)
        × (cfg.current_day_amount + req.amount ≤ cfg.max_amount_per_day)
        × (inbound.amount ≡ req.amount)
        × (s' ≡ claim_writes env req message inbound cfg now (dest + req.amount) s)
  unfolding claim_checked
  claim_checked-ok req message cfg now s s' ha h = ground (
    arith,
    safe_add_u64-of-lt
        (account_locked env s (normalize_address env (inbound_of env req now s).recipient)).balance
        req.amount ha,
  )

  -- The writes of a transfer out, between two accounts that are not one.
  bridge_out_writes-moves :
      (req : BridgeOutRequest) (cfg : BridgeConfig) (pool : String) (now day : ℕ) (s : State)
      → cfg.bridge_pool_address ≡ pool
      → normalize_address env pool ≡ pool
      → normalize_address env req.sender ≢ pool
      → let total = req.amount + req.fee in
        let balance = (account_locked env s cfg.bridge_pool_address).balance + total in
        total ≤ (account_locked env s (normalize_address env req.sender)).balance
        → let s' = bridge_out_writes env req cfg now balance day s in
          (circulating s'.accounts ≡ circulating s.accounts)
          × ((account_at s'.accounts pool).balance ≡ (account_at s.accounts pool).balance + total)
  unfolding account_locked holdings
  bridge_out_writes-moves req cfg pool now day s same stable ne covered =
      let paid : req.amount + req.fee
          ≤ (account_at s.accounts (normalize_address env req.sender)).balance =
        rw (normalize_address_idempotent env req.sender) at covered in
      rw (same, stable, normalize_address_idempotent env req.sender)
        (
          circulating-move (normalize_address env req.sender) pool _ _ (req.amount + req.fee)
              s.accounts ne (omega arith) (omega arith),
          simp (account_at-insert_self) (ground arith),
        )

  bridge_out_accepted :
      (req : BridgeOutRequest) (now : ℕ) (signed : Bool) (s : State) (cfg : BridgeConfig)
      → s.bridge_config ≡ some cfg
      → (apply_bridge_out env req now signed s).1 ≡ none
      → bridge_out_checked env req
          (roll_window now cfg)
          now
          signed
          (with_config (roll_window now cfg) s)
        ≡ ok (apply_bridge_out env req now signed s).0
  unfolding apply_bridge_out
  bridge_out_accepted req now signed s cfg configured accepted = ground (arith, configured)

  -- An accepted transfer out locks its amount and its fee: the pool account gains both, nothing is
  -- made or lost in sum, and what has crossed today stays within the daily limit. It holds where
  -- the request's numbers are uint64 and the sender is not the pool itself, whose address is
  -- normalised.
  pub bridge_out_locks :
      (req : BridgeOutRequest) (now : ℕ) (signed : Bool) (s : State) (cfg : BridgeConfig)
      → s.bridge_config ≡ some cfg
      → req.amount < u64_mod
      → req.fee < u64_mod
      → normalize_address env cfg.bridge_pool_address ≡ cfg.bridge_pool_address
      → normalize_address env req.sender ≢ cfg.bridge_pool_address
      → (apply_bridge_out env req now signed s).1 ≡ none
      → let s' = (apply_bridge_out env req now signed s).0 in
        (circulating s'.accounts ≡ circulating s.accounts)
        × ((account_at s'.accounts cfg.bridge_pool_address).balance
            ≡ (account_at s.accounts cfg.bridge_pool_address).balance + (req.amount + req.fee))
        × ((roll_window now cfg).current_day_amount + req.amount ≤ cfg.max_amount_per_day)
  bridge_out_locks req now signed s cfg configured ha hf stable ne accepted =
      let cfg' = roll_window now cfg in
      let s1 = with_config cfg' s in
      let s' = (apply_bridge_out env req now signed s).0 in
      let (same, limit) = roll_window-same now cfg in
      let (covered, day, _, after) =
        bridge_out_checked-ok req cfg' now signed s1 s' ha hf
          (bridge_out_accepted req now signed s cfg configured accepted) in
      let (sum, gained) =
        bridge_out_writes-moves req cfg' cfg.bridge_pool_address now
          (cfg'.current_day_amount + req.amount) s1 same stable ne covered in
      (
        ap (λ (t : State). circulating t.accounts) after ∙ sum,
        ap (λ (t : State). (account_at t.accounts cfg.bridge_pool_address).balance) after ∙ gained,
        rw limit at day,
      )
