-- ===== src/AgentKeys/Lifecycle.antt =====
-- How the requests on agent keys end, and where a replaying node ends up elsewhere than the node
-- that received the request.
use falari.Prelude.{
  ℕ, String, Bool, true, List, [], some, ok, err, leb, if◌then◌else◌, ◌≡◌, ◌≢◌, inl, inr, arith,
  Option-cases, Result-cases,
}
use falari.Dict.{lookup}
use falari.Dict.Laws.{lookup-insert_self}
use falari.Types.{AgentKey}
use falari.Env.{Env, normalize_address}
use falari.State.{State}
use falari.Accounts.{consume_account_nonce}
use falari.AgentKeys.Permissions.{
  normalize_agent_permissions, agent_allowed_ops, sort_strings, too_many,
}
use falari.AgentKeys.Requests.{
  KeyRequest, RegisterAgentKeyRequest, permissions, revoke_agent_key, extend_agent_key,
  topup_agent_key, register_agent_key, verify_agent_request,
}
use falari.AgentKeys.Replay.{
  apply_revoke_agent_key, apply_extend_agent_key, apply_topup_agent_key, apply_register_agent_key,
}

module _ (env : Env) where
  -- The entry that an accepted revocation leaves.
  revoke_marks :
      (req : KeyRequest) (signed : Bool) (s s' : State)
      → revoke_agent_key env req signed s ≡ ok s'
      → (key : AgentKey) × (lookup req.key_id s'.agent_keys ≡ some (record key { revoked = true }))
  unfolding revoke_agent_key
  revoke_marks req signed s s' h = elim (Option-cases (lookup req.key_id s.agent_keys)) [
    | inl e ↦ absurd (ground (arith, e))
    | inr (key, e) ↦ (
      key,
      ground (
        arith,
        e,
        lookup-insert_self req.key_id (record key { revoked = true })
            (consume_account_nonce env (normalize_address env req.master) s).agent_keys,
      ),
    )
  ]

  -- Once a revocation is accepted, every request that the key signs afterwards is refused: for any
  -- operation, spend, nonce, time and signature, and whatever else the state has become, as long as
  -- the key's entry is the one that the revocation left.
  pub revoke_stops_agent :
      (req : KeyRequest) (signed : Bool) (s s' later : State)
      → revoke_agent_key env req signed s ≡ ok s'
      → lookup req.key_id later.agent_keys ≡ lookup req.key_id s'.agent_keys
      → (chain_id : String) (agent_nonce : ℕ) (master operation : String) (spend now : ℕ)
        (agent_signed : Bool)
      → verify_agent_request env chain_id req.key_id agent_nonce master operation spend now
          agent_signed later
        ≢ ok tt
  unfolding revoke_agent_key verify_agent_request
  revoke_stops_agent req signed s s' later h same chain_id agent_nonce master operation spend now
        agent_signed =
      let (key, e) = revoke_marks req signed s s' h in ground (arith, same, e)

  -- A revocation that the receiving node accepts has the same effect on a node that replays it.
  pub revoke_replayed :
      (req : KeyRequest) (signed : Bool) (s s' : State)
      → revoke_agent_key env req signed s ≡ ok s'
      → apply_revoke_agent_key env req signed s ≡ ok s'
  unfolding revoke_agent_key apply_revoke_agent_key
  revoke_replayed req signed s s' h = ground arith

  -- A top-up that raises the limit has the same effect on a replaying node; one that lowers it, or
  -- leaves it, is accepted by the receiving node, and skipped by every node that replays the block.
  pub topup_replayed :
      (req : KeyRequest) (signed : Bool) (s s' : State) (key : AgentKey)
      → topup_agent_key env req signed s ≡ ok s'
      → lookup req.key_id s.agent_keys ≡ some key
      → apply_topup_agent_key env req signed s
        ≡ ok (if leb req.value key.total_limit then s else s')
  unfolding topup_agent_key apply_topup_agent_key
  topup_replayed req signed s s' key h found = ground arith

  -- The same holds of an extension: an expiry that is not later is set by the receiving node alone.
  pub extend_replayed :
      (req : KeyRequest) (wall : ℕ) (signed : Bool) (s s' : State) (key : AgentKey)
      → extend_agent_key env req wall signed s ≡ ok s'
      → lookup req.key_id s.agent_keys ≡ some key
      → apply_extend_agent_key env req signed s
        ≡ ok (if leb req.value key.expires_at then s else s')
  unfolding extend_agent_key apply_extend_agent_key
  extend_replayed req wall signed s s' key h found = ground arith

  default_permissions_refused :
      (ps : List String)
      → normalize_agent_permissions [] ≡ ok ps
      → normalize_agent_permissions ps ≡ err too_many
  unfolding normalize_agent_permissions agent_allowed_ops sort_strings
  default_permissions_refused ps h = ground arith

  -- A key that is registered without naming permissions gets all twelve, and the block carries them:
  -- more than the ten that a request may name, so every node that replays the block refuses it.
  pub default_registration_not_replayed :
      (request recorded : RegisterAgentKeyRequest) (key : AgentKey) (key_id expected : String)
      (wall now : ℕ) (signed signed' : Bool) (s s' elsewhere : State)
      → request.permissions ≡ []
      → register_agent_key env request key_id wall now signed s ≡ ok (s', recorded, key)
      → apply_register_agent_key env recorded key expected signed' elsewhere
        ≡ err (permissions too_many)
  unfolding register_agent_key apply_register_agent_key
  default_registration_not_replayed request recorded key key_id expected wall now signed signed' s
        s' elsewhere none_named h =
      elim (Result-cases (normalize_agent_permissions request.permissions)) [
        | inl (ps, e) ↦ ground (arith, e, default_permissions_refused ps (rw none_named at e))
        | inr (_, e) ↦ ground (arith, e)
      ]
