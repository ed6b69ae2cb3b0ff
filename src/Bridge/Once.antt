-- ===== src/Bridge/Once.antt =====
-- A burn on the other chain is paid out at most once.
use falari.Prelude.{
  ℕ, String, Bool, true, false, List, [], ◌∷◌, Option, none, some, ◌≡◌, ◌≢◌, ◌⊎◌, ◌∙◌, inl, inr,
  str_eq, eq_refl, if◌then◌else◌, arith,
}
use falari.Dict.{lookup, insert}
use falari.Dict.Laws.{lookup-insert}
use falari.Types.{BridgeInbound, claimed}
use falari.Env.{Env}
use falari.State.{State}
use falari.Bridge.{
  BridgeOutRequest, BridgeInClaimRequest, BridgeSetConfigRequest, bridge_out_checked,
  apply_bridge_out, claim_checked, apply_bridge_in_claim, settle, is_claimed, inbound_of,
}
use falari.Bridge.Config.{apply_bridge_set_config}
use falari.Bridge.Steps.{BridgeStep, out, claim, configure, step, run}

-- Whether the burn with this transaction hash has been paid out.
abbrev pub paid : String → State → Bool
paid hash s = elim (lookup hash s.bridge_inbounds) [
  | none ↦ false
  | some inbound ↦ is_claimed inbound.status
]

module _ (env : Env) where
  paid-same :
      (hash : String) (s s' : State)
      → s'.bridge_inbounds ≡ s.bridge_inbounds
      → paid hash s' ≡ paid hash s
  paid-same hash s s' e = rw e

  -- The mark of one record, seen from each.
  paid-marked :
      (key hash : String) (inbound : BridgeInbound) (s s' : State)
      → s'.bridge_inbounds ≡ insert key (record inbound { status = claimed }) s.bridge_inbounds
      → paid hash s' ≡ (if str_eq key hash then true else paid hash s)
  paid-marked key hash inbound s s' e =
      ground
        (arith, e, lookup-insert key hash (record inbound { status = claimed }) s.bridge_inbounds)

  bridge_out_inbounds :
      (req : BridgeOutRequest) (now : ℕ) (signed : Bool) (s : State)
      → (apply_bridge_out env req now signed s).0.bridge_inbounds ≡ s.bridge_inbounds
  unfolding apply_bridge_out bridge_out_checked
  bridge_out_inbounds req now signed s = ground arith

  config_inbounds :
      (req : BridgeSetConfigRequest) (message : String) (signer : Option String)
      (pool_address : String) (now : ℕ) (s : State)
      → (settle s
          (apply_bridge_set_config env req message signer pool_address now s)).0.bridge_inbounds
        ≡ s.bridge_inbounds
  unfolding apply_bridge_set_config
  config_inbounds req message signer pool_address now s = ground arith

  -- A claim either leaves the inbound records, with an error, or marks its own as paid out.
  claim_inbounds :
      (req : BridgeInClaimRequest) (message : String) (signer : Option String) (now : ℕ) (s : State)
      → let (s', e) = apply_bridge_in_claim env req message signer now s in
        ((s'.bridge_inbounds ≡ s.bridge_inbounds) × (e ≢ none))
        ⊎ ((s'.bridge_inbounds
              ≡ insert req.source_tx_hash
                  (record (inbound_of env req now s) { status = claimed })
                  s.bridge_inbounds)
            × (paid req.source_tx_hash s ≡ false))
  unfolding apply_bridge_in_claim claim_checked
  claim_inbounds req message signer now s = ground arith

  -- A record that is paid out stays so.
  paid-step :
      (hash : String) (b : BridgeStep) (s : State)
      → paid hash s ≡ true
      → paid hash (step env b s).0 ≡ true
  paid-step hash (out req now signed) s h =
      paid-same hash s (apply_bridge_out env req now signed s).0
        (bridge_out_inbounds req now signed s)
      ∙ h
  paid-step hash (configure req message signer pool_address now) s h =
      paid-same hash s
        (settle s (apply_bridge_set_config env req message signer pool_address now s)).0
        (config_inbounds req message signer pool_address now s)
      ∙ h
  paid-step hash (claim req message signer now) s h =
      elim (claim_inbounds req message signer now s) [
        | inl (same, _) ↦
            paid-same hash s (apply_bridge_in_claim env req message signer now s).0 same ∙ h
        | inr (marked, fresh) ↦ ground (
          arith,
          h,
          paid-marked req.source_tx_hash hash (inbound_of env req now s) s
              (apply_bridge_in_claim env req message signer now s).0 marked,
        )
      ]

  paid-run :
      (hash : String) (steps : List BridgeStep) (s : State)
      → paid hash s ≡ true
      → paid hash (run env steps s) ≡ true
  unfolding run
  paid-run hash [] s h = h
  paid-run hash (b ∷ rest) s h = paid-run hash rest (step env b s).0 (paid-step hash b s h)

  -- A burn on the other chain is paid out at most once: after an accepted claim and any run of bridge
  -- transactions, accepted or not, every claim for the same source transaction is refused, whatever
  -- its other fields, its message hash, its signer and its time.
  pub claim_once :
      (req again : BridgeInClaimRequest) (message message' : String)
      (signer signer' : Option String) (now later : ℕ) (steps : List BridgeStep) (s : State)
      → (apply_bridge_in_claim env req message signer now s).1 ≡ none
      → again.source_tx_hash ≡ req.source_tx_hash
      → (apply_bridge_in_claim env again message' signer' later
          (run env steps (apply_bridge_in_claim env req message signer now s).0)).1
        ≢ none
  claim_once req again message message' signer signer' now later steps s accepted same =
      let s1 = (apply_bridge_in_claim env req message signer now s).0 in
      let s2 = run env steps s1 in
      let marked : paid req.source_tx_hash s1 ≡ true =
        elim (claim_inbounds req message signer now s) [
          | inl (_, refused) ↦ absurd (refused accepted)
          | inr (e, _) ↦ ground (
            arith,
            eq_refl req.source_tx_hash,
            paid-marked req.source_tx_hash req.source_tx_hash (inbound_of env req now s) s s1 e,
          )
        ] in
      let still : paid again.source_tx_hash s2 ≡ true =
        rw same (paid-run req.source_tx_hash steps s1 marked) in
      elim (claim_inbounds again message' signer' later s2) [
        | inl (_, refused) ↦ refused
        | inr (_, fresh) ↦ absurd (ground (arith, still, fresh))
      ]
