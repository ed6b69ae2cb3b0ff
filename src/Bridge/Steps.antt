-- ===== src/Bridge/Steps.antt =====
-- Runs of bridge transactions in the order of the blocks, whatever each of them is answered.
use falari.Prelude.{ℕ, String, Bool, List, [], ◌∷◌, Option}
use falari.Env.{Env}
use falari.State.{State}
use falari.Bridge.{
  BridgeOutRequest, BridgeInClaimRequest, BridgeSetConfigRequest, BridgeError, apply_bridge_out,
  apply_bridge_in_claim, settle,
}
use falari.Bridge.Config.{apply_bridge_set_config}

-- A transaction with what the node learns about it from outside.
pub data BridgeStep : Type 0 where
  out : BridgeOutRequest → ℕ → Bool → BridgeStep
  claim : BridgeInClaimRequest → String → Option String → ℕ → BridgeStep
  configure : BridgeSetConfigRequest → String → Option String → String → ℕ → BridgeStep

module _ (env : Env) where
  abbrev pub step : BridgeStep → State → State × Option BridgeError
  step (out req now signed) s = apply_bridge_out env req now signed s
  step (claim req message signer now) s = apply_bridge_in_claim env req message signer now s
  step (configure req message signer pool_address now) s =
      settle s (apply_bridge_set_config env req message signer pool_address now s)

  unfoldable pub run : List BridgeStep → State → State
  run [] s = s
  run (b ∷ rest) s = run rest (step b s).0
