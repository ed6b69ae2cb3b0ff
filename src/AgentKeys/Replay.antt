-- ===== src/AgentKeys/Replay.antt =====
-- The requests on agent keys as a node that replays the block handles them (agent_key.go).
use falari.Prelude.{
  String, Bool, true, false, not, ◌&&◌, ◌||◌, List, [], ◌∷◌, none, Result, ok, fail_if, ◌>>=◌, ◌>>◌,
  str_eq, ltb, leb, ◌==◌, if◌then◌else◌,
}
use falari.Dict.{has}
use falari.Types.{AgentKey}
use falari.Env.{Env}
use falari.State.{State}
use falari.Accounts.{verify_account_request, consume_account_nonce}
use falari.AgentKeys.Permissions.{normalize_agent_permissions}
use falari.AgentKeys.Requests.{
  RegisterAgentKeyRequest, KeyRequest, AgentError, id_mismatch, key_mismatch, revoked, below_used,
  from_permissions, from_auth, put_key, validate_register_request, cleaned, owned_key, authorize,
}

unfoldable pub same_permissions : List String → List String → Bool
same_permissions [] [] = true
same_permissions [] (_ ∷ _) = false
same_permissions (_ ∷ _) [] = false
same_permissions (p ∷ ps) (q ∷ qs) = str_eq p q && same_permissions ps qs

unfoldable pub validate_key_matches_request :
    AgentKey → RegisterAgentKeyRequest → Result AgentError (Unit {0})
validate_key_matches_request key req = do
  fail_if
      (not (str_eq key.master req.master)
        || not (str_eq key.name req.name)
        || not (str_eq key.agent_pub req.agent_pub))
      key_mismatch
  fail_if
      (not (key.daily_limit == req.daily_limit)
        || not (key.total_limit == req.total_limit)
        || not (key.expires_at == req.expires_at))
      key_mismatch
  fail_if
      (not (key.nonce == 0)
        || not (key.used_today == 0)
        || not (key.used_total == 0)
        || key.revoked)
      key_mismatch
  fail_if (key.created_at == 0 || key.day_reset_at == 0) key_mismatch
  fail_if (not (same_permissions key.permissions req.permissions)) key_mismatch

module _ (env : Env) where
  unfoldable pub apply_register_agent_key :
      RegisterAgentKeyRequest → AgentKey → String → Bool → State → Result AgentError State
  apply_register_agent_key request key expected_id signed s = do
    ps ← from_permissions (normalize_agent_permissions request.permissions)
    let req = cleaned env request ps
    validate_register_request req none
    fail_if (not (str_eq key.key_id expected_id)) id_mismatch
    if has expected_id s.agent_keys then ok s else do
      from_auth (verify_account_request env s req.chain_id req.master req.nonce signed)
      validate_key_matches_request key req
      ok (
          put_key expected_id
            (record key { master = req.master; name = req.name; permissions = req.permissions })
            (consume_account_nonce env req.master s))

  unfoldable pub apply_revoke_agent_key : KeyRequest → Bool → State → Result AgentError State
  apply_revoke_agent_key req signed s = do
    key ← owned_key env req s
    if key.revoked then ok s else do
      s' ← authorize env req signed s
      ok (put_key req.key_id (record key { revoked = true }) s')

  unfoldable pub apply_extend_agent_key : KeyRequest → Bool → State → Result AgentError State
  apply_extend_agent_key req signed s = do
    key ← owned_key env req s
    fail_if key.revoked revoked
    if leb req.value key.expires_at then ok s else do
      s' ← authorize env req signed s
      ok (put_key req.key_id (record key { expires_at = req.value }) s')

  unfoldable pub apply_topup_agent_key : KeyRequest → Bool → State → Result AgentError State
  apply_topup_agent_key req signed s = do
    key ← owned_key env req s
    fail_if key.revoked revoked
    fail_if (ltb req.value key.used_total) below_used
    if leb req.value key.total_limit then ok s else do
      s' ← authorize env req signed s
      ok (put_key req.key_id (record key { total_limit = req.value }) s')
