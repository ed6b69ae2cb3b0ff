-- ===== src/Bridge/Volume.antt =====
-- How much can cross the bridge in a day.
use falari.Prelude.{
  ℕ, ◌+◌, ◌-◌, ◌≤◌, ◌<◌, String, Bool, true, false, List, [], ◌∷◌, Option, none, some, ◌≡◌, inl,
  inr, All, lt→leb_false, Result-cases, ap, arith,
}
use falari.Arith.{u64_mod}
use falari.Types.{BridgeConfig}
use falari.Env.{Env}
use falari.State.{State}
use falari.Bridge.{
  BridgeOutRequest, BridgeInClaimRequest, BridgeError, bridge_out_checked, apply_bridge_out,
  claim_checked, apply_bridge_in_claim, with_config, roll_window,
}
use falari.Bridge.Steps.{BridgeStep, out, claim, configure, step}
use falari.Bridge.Pool.{bridge_out_checked-ok, claim_checked-ok}

abbrev pub succeeded : Option BridgeError → Bool
succeeded none = true
succeeded (some _) = false

-- The configuration after `amount` more has crossed.
abbrev pub used : ℕ → BridgeConfig → BridgeConfig
used amount cfg = record cfg { current_day_amount = cfg.current_day_amount + amount }

abbrev pub counted : ℕ → Option BridgeError → ℕ
counted amount none = amount
counted amount (some _) = 0

roll_inside :
    (now : ℕ) (cfg : BridgeConfig) → now < cfg.day_start_unix + 86400 → roll_window now cfg ≡ cfg
roll_inside now cfg h = rw (lt→leb_false 86400 (now - cfg.day_start_unix) (omega arith))

module _ (env : Env) where
  out_counts :
      (req : BridgeOutRequest) (now : ℕ) (signed : Bool) (s : State) (cfg : BridgeConfig)
      → s.bridge_config ≡ some cfg
      → now < cfg.day_start_unix + 86400
      → req.amount < u64_mod
      → req.fee < u64_mod
      → cfg.current_day_amount ≤ cfg.max_amount_per_day
      → let (s', e) = apply_bridge_out env req now signed s in
        (s'.bridge_config ≡ some (used (counted req.amount e) cfg))
        × (cfg.current_day_amount + counted req.amount e ≤ cfg.max_amount_per_day)
  unfolding apply_bridge_out
  out_counts req now signed s cfg configured inside ha hf h =
      let same = roll_inside now cfg inside in
      elim (Result-cases (bridge_out_checked env req cfg now signed (with_config cfg s))) [
        | inl (s', e) ↦
            (let (_, day, _, after) =
                bridge_out_checked-ok env req cfg now signed (with_config cfg s) s' ha hf e in
              ground (arith, configured, same, e, day, ap (λ (t : State). t.bridge_config) after))
        | inr (_, e) ↦ ground (arith, configured, same, e)
      ]

  claim_counts :
      (req : BridgeInClaimRequest) (message : String) (signer : Option String) (now : ℕ) (s : State)
      (cfg : BridgeConfig)
      → s.bridge_config ≡ some cfg
      → now < cfg.day_start_unix + 86400
      → req.amount < u64_mod
      → cfg.max_amount_per_day < u64_mod
      → cfg.current_day_amount ≤ cfg.max_amount_per_day
      → let (s', e) = apply_bridge_in_claim env req message signer now s in
        (s'.bridge_config ≡ some (used (counted req.amount e) cfg))
        × (cfg.current_day_amount + counted req.amount e ≤ cfg.max_amount_per_day)
  unfolding apply_bridge_in_claim
  claim_counts req message signer now s cfg configured inside ha hm h =
      let same = roll_inside now cfg inside in
      elim (Result-cases (claim_checked env req message cfg now (with_config cfg s))) [
        | inl (s', e) ↦
            (let (_, day, _, after) =
                claim_checked-ok env req message cfg now (with_config cfg s) s' ha e in
              ground (arith, configured, same, e, day, ap (λ (t : State). t.bridge_config) after))
        | inr (_, e) ↦ ground (arith, configured, same, e)
      ]

  -- The amount that a step carries over the bridge, in or out, where it is accepted.
  abbrev pub carried : BridgeStep → Option BridgeError → ℕ
  carried (out req now signed) e = counted req.amount e
  carried (claim req message signer now) e = counted req.amount e
  carried (configure req message signer pool_address now) e = 0

  -- A transfer before the day that began at `start` is over, with numbers that are uint64; no
  -- change of the configuration.
  abbrev pub InDay : ℕ → BridgeStep → Type 0
  InDay start (out req now signed) =
      (now < start + 86400) × (req.amount < u64_mod) × (req.fee < u64_mod)
  InDay start (claim req message signer now) = (now < start + 86400) × (req.amount < u64_mod)
  InDay start (configure req message signer pool_address now) = ⊥

  unfoldable pub crossed : List BridgeStep → State → ℕ
  crossed [] s = 0
  crossed (b ∷ rest) s = let (s', e) = step env b s in carried b e + crossed rest s'

  step_counts :
      (b : BridgeStep) (s : State) (cfg : BridgeConfig)
      → s.bridge_config ≡ some cfg
      → InDay cfg.day_start_unix b
      → cfg.max_amount_per_day < u64_mod
      → cfg.current_day_amount ≤ cfg.max_amount_per_day
      → let (s', e) = step env b s in
        (s'.bridge_config ≡ some (used (carried b e) cfg))
        × (cfg.current_day_amount + carried b e ≤ cfg.max_amount_per_day)
  step_counts (out req now signed) s cfg configured (inside, ha, hf) hm h =
      out_counts req now signed s cfg configured inside ha hf h
  step_counts (claim req message signer now) s cfg configured (inside, ha) hm h =
      claim_counts req message signer now s cfg configured inside ha hm h
  step_counts (configure req message signer pool_address now) s cfg configured inside hm h =
      absurd inside

  -- The daily limit: over any run of transfers out and claims before the day is over, accepted or
  -- not, what crosses the bridge in both directions together and what had crossed before stay within
  -- the configured maximum, if the configuration does not change meanwhile.
  pub crossed-le-daily_limit :
      (steps : List BridgeStep) (s : State) (cfg : BridgeConfig)
      → s.bridge_config ≡ some cfg
      → All (InDay cfg.day_start_unix) steps
      → cfg.max_amount_per_day < u64_mod
      → cfg.current_day_amount ≤ cfg.max_amount_per_day
      → cfg.current_day_amount + crossed steps s ≤ cfg.max_amount_per_day
  unfolding crossed
  crossed-le-daily_limit [] s cfg configured inside hm h = omega arith
  crossed-le-daily_limit (b ∷ rest) s cfg configured (here, later) hm h =
      let (s', e) = step env b s in
      let (after, bound) = step_counts b s cfg configured here hm h in
      omega (arith, crossed-le-daily_limit rest s' (used (carried b e) cfg) after later hm bound)
