-- ===== src/Bridge/Claims.antt =====
-- What an accepted claim pays out of the pool.
use falari.Prelude.{ℕ, ◌+◌, ◌≤◌, ◌<◌, String, Option, none, some, ◌≡◌, ◌≢◌, ◌∙◌, ok, ap, sym, arith}
use falari.Arith.{u64_mod}
use falari.Types.{BridgeInbound, BridgeConfig}
use falari.Env.{Env, normalize_address, normalize_address_idempotent}
use falari.State.{State}
use falari.Accounts.{account_at, account_locked}
use falari.Accounts.Funds.{
  holdings, circulating, circulating-move, account_at-insert_self, account_at-insert_ne,
}
use falari.Bridge.{
  BridgeInClaimRequest, claim_checked, apply_bridge_in_claim, inbound_of, claim_writes, with_config,
  roll_window,
}
use falari.Bridge.Pool.{roll_window-same, claim_checked-ok}

module _ (env : Env) where
  claim_writes-moves :
      (req : BridgeInClaimRequest) (message : String) (inbound : BridgeInbound) (cfg : BridgeConfig)
      (pool : String) (now : ℕ) (s : State)
      → let recipient = normalize_address env inbound.recipient in
        cfg.bridge_pool_address ≡ pool
        → normalize_address env pool ≡ pool
        → recipient ≢ pool
        → inbound.amount ≡ req.amount
        → req.amount ≤ (account_locked env s cfg.bridge_pool_address).balance
        → let dest = (account_locked env s recipient).balance in
          let s' = claim_writes env req message inbound cfg now (dest + req.amount) s in
          (circulating s'.accounts ≡ circulating s.accounts)
          × ((account_at s'.accounts pool).balance + req.amount
              ≡ (account_at s.accounts pool).balance)
          × ((account_at s'.accounts recipient).balance
              ≡ (account_at s.accounts recipient).balance + req.amount)
  unfolding account_locked holdings
  claim_writes-moves req message inbound cfg pool now s same stable ne amount covered =
      let recipient = normalize_address env inbound.recipient in
      let held : req.amount ≤ (account_at s.accounts pool).balance = rw (same, stable) at covered in
      rw (same, stable, normalize_address_idempotent env inbound.recipient, amount)
        (
          circulating-move pool recipient _ _ req.amount s.accounts (λ e. ne (sym e)) (omega arith)
              (omega arith),
          simp (account_at-insert_self, account_at-insert_ne _ _ _ _ ne) (ground arith),
          simp (account_at-insert_self) (ground arith),
        )

  claim_accepted :
      (req : BridgeInClaimRequest) (message : String) (signer : Option String) (now : ℕ) (s : State)
      (cfg : BridgeConfig)
      → s.bridge_config ≡ some cfg
      → (apply_bridge_in_claim env req message signer now s).1 ≡ none
      → claim_checked env req message
          (roll_window now cfg)
          now
          (with_config (roll_window now cfg) s)
        ≡ ok (apply_bridge_in_claim env req message signer now s).0
  unfolding apply_bridge_in_claim
  claim_accepted req message signer now s cfg configured accepted = ground (arith, configured)

  -- An accepted claim pays out of the pool account what it says, and the pool had that much: the
  -- pool loses the amount, the recipient of the inbound record gains it, nothing is made or lost in
  -- sum, and what has crossed today stays within the daily limit. It holds where the amount is a
  -- uint64 and the recipient is not the pool itself, whose address is normalised.
  pub bridge_claim_pays :
      (req : BridgeInClaimRequest) (message : String) (signer : Option String) (now : ℕ) (s : State)
      (cfg : BridgeConfig)
      → s.bridge_config ≡ some cfg
      → req.amount < u64_mod
      → normalize_address env cfg.bridge_pool_address ≡ cfg.bridge_pool_address
      → normalize_address env (inbound_of env req now s).recipient ≢ cfg.bridge_pool_address
      → (apply_bridge_in_claim env req message signer now s).1 ≡ none
      → let s' = (apply_bridge_in_claim env req message signer now s).0 in
        let recipient = normalize_address env (inbound_of env req now s).recipient in
        (circulating s'.accounts ≡ circulating s.accounts)
        × ((account_at s'.accounts cfg.bridge_pool_address).balance + req.amount
            ≡ (account_at s.accounts cfg.bridge_pool_address).balance)
        × ((account_at s'.accounts recipient).balance
            ≡ (account_at s.accounts recipient).balance + req.amount)
        × ((roll_window now cfg).current_day_amount + req.amount ≤ cfg.max_amount_per_day)
  bridge_claim_pays req message signer now s cfg configured ha stable ne accepted =
      let cfg' = roll_window now cfg in
      let s1 = with_config cfg' s in
      let s' = (apply_bridge_in_claim env req message signer now s).0 in
      let inbound = inbound_of env req now s in
      let (same, limit) = roll_window-same now cfg in
      let (covered, day, amount, after) =
        claim_checked-ok env req message cfg' now s1 s' ha
          (claim_accepted req message signer now s cfg configured accepted) in
      let (sum, lost, gained) =
        claim_writes-moves req message inbound cfg' cfg.bridge_pool_address now s1 same stable ne
          amount covered in
      (
        ap (λ (t : State). circulating t.accounts) after ∙ sum,
        ap (λ (t : State). (account_at t.accounts cfg.bridge_pool_address).balance + req.amount)
              after
            ∙ lost,
        ap
              (λ (t : State).
                (account_at t.accounts (normalize_address env inbound.recipient)).balance)
              after
            ∙ gained,
        rw limit at day,
      )
