-- ===== src/AgentKeys/Requests.antt =====
-- The requests of an account that create and change its agent keys (agent_key.go), as a node that
-- receives them handles them (Replay has the other side, `apply_…`), and the check of a request that
-- an agent signs (agent_request_auth.go). The identifier of a new key is a hash over fresh random
-- bytes, so it is an argument of both sides; so are the wall clock, the block clock and the verdict
-- on a signature. Writing the state file is not modelled.
use Prim.Native.String.{len}
use falari.Prelude.{
  ℕ, ◌+◌, String, Bool, true, false, not, ◌&&◌, ◌||◌, List, [], ◌∷◌, Option, none, some, Result, ok,
  err, fail_if, ◌>>=◌, ◌>>◌, str_eq, ltb, leb, ◌==◌, if◌then◌else◌,
}
use falari.Dict.{Dict, lookup, insert}
use falari.Types.{AgentKey}
use falari.Env.{Env, normalize_address}
use falari.State.{State}
use falari.Accounts.{AuthError, verify_account_request, consume_account_nonce}
use falari.AgentKeys.{start_of_next_day_at, agent_limit_exceeded}
use falari.AgentKeys.Permissions.{
  PermissionError, normalize_agent_permissions, trim_space, agent_key_allows_operation,
}

pub record RegisterAgentKeyRequest : Type 0 where
  pub chain_id : String
  pub master : String
  pub name : String
  pub agent_pub : String
  pub permissions : List String
  pub daily_limit : ℕ
  pub total_limit : ℕ
  pub expires_at : ℕ
  pub nonce : ℕ

-- A request to revoke a key, to extend it (`value` is the new expiry) or to top it up (`value` is
-- the new lifetime limit).
pub record KeyRequest : Type 0 where
  pub chain_id : String
  pub master : String
  pub key_id : String
  pub value : ℕ
  pub nonce : ℕ

pub data AgentError : Type 0 where
  permissions : PermissionError → AgentError
  auth : AuthError → AgentError
  master_required agent_pub_required name_required name_too_long expiry_past : AgentError
  pub_already_registered too_many_keys key_id_required key_not_found not_master : AgentError
  revoked expired below_used lacks_permission bad_agent_nonce bad_agent_signature : AgentError
  daily_limit_exceeded total_limit_exceeded id_mismatch key_mismatch : AgentError
  chain_id_required chain_id_mismatch : AgentError

abbrev pub max_agent_key_name_len : ℕ
max_agent_key_name_len = 64

abbrev pub max_agent_keys_per_account : ℕ
max_agent_keys_per_account = 50

abbrev pub from_permissions : {A : Type 0} → Result PermissionError A → Result AgentError A
from_permissions (ok a) = ok a
from_permissions (err e) = err (permissions e)

abbrev pub from_auth : {A : Type 0} → Result AuthError A → Result AgentError A
from_auth (ok a) = ok a
from_auth (err e) = err (auth e)

abbrev pub find_key : String → State → Result AgentError AgentKey
find_key key_id s = elim (lookup key_id s.agent_keys) [
  | none ↦ err key_not_found
  | some key ↦ ok key
]

abbrev pub put_key : String → AgentKey → State → State
put_key key_id key s = record s { agent_keys = insert key_id key s.agent_keys }

-- The loop over the account's keys: how many there are, and whether one has the public key.
unfoldable pub count_keys : String → Dict AgentKey → ℕ
count_keys master [] = 0
count_keys master ((_, key) ∷ rest) =
    let n = count_keys master rest in if str_eq key.master master then n + 1 else n

unfoldable pub has_agent_pub : String → String → Dict AgentKey → Bool
has_agent_pub master agent_pub [] = false
has_agent_pub master agent_pub ((_, key) ∷ rest) =
    str_eq key.master master && str_eq key.agent_pub agent_pub
    || has_agent_pub master agent_pub rest

-- `fresh` is the wall clock where the expiry must lie in the future, and nothing on replay.
unfoldable pub validate_register_request :
    RegisterAgentKeyRequest → Option ℕ → Result AgentError (Unit {0})
validate_register_request req fresh = do
  fail_if (str_eq req.master "") master_required
  fail_if (str_eq req.agent_pub "") agent_pub_required
  fail_if (str_eq (trim_space req.name) "") name_required
  fail_if (ltb max_agent_key_name_len (len req.name)) name_too_long
  fail_if (elim fresh [ none ↦ false | some now ↦ ltb 0 req.expires_at && leb req.expires_at now ])
      expiry_past

module _ (env : Env) where
  -- The request as the node has cleaned it up: that is also what it records for the block.
  abbrev pub cleaned : RegisterAgentKeyRequest → List String → RegisterAgentKeyRequest
  cleaned req ps = record req {
    master = normalize_address env req.master;
    name = trim_space req.name;
    permissions = ps;
  }

  abbrev pub new_key : RegisterAgentKeyRequest → String → ℕ → AgentKey
  new_key req key_id now = record {
    key_id = key_id;
    name = req.name;
    master = req.master;
    agent_pub = req.agent_pub;
    nonce = 0;
    permissions = req.permissions;
    daily_limit = req.daily_limit;
    total_limit = req.total_limit;
    used_today = 0;
    used_total = 0;
    day_reset_at = start_of_next_day_at now;
    created_at = now;
    expires_at = req.expires_at;
    revoked = false;
  }

  -- The new state, with the request and the key that the block will carry.
  unfoldable pub register_agent_key :
      RegisterAgentKeyRequest
      → String
      → ℕ
      → ℕ
      → Bool
      → State
      → Result AgentError (State × RegisterAgentKeyRequest × AgentKey)
  register_agent_key request key_id wall now signed s = do
    ps ← from_permissions (normalize_agent_permissions request.permissions)
    let req = cleaned request ps
    validate_register_request req (some wall)
    fail_if (has_agent_pub req.master req.agent_pub s.agent_keys) pub_already_registered
    fail_if (leb max_agent_keys_per_account (count_keys req.master s.agent_keys)) too_many_keys
    from_auth (verify_account_request env s req.chain_id req.master req.nonce signed)
    let key = new_key req key_id now
    ok (put_key key_id key (consume_account_nonce env req.master s), req, key)

  -- What the requests on an existing key have in common.
  abbrev pub owned_key : KeyRequest → State → Result AgentError AgentKey
  owned_key req s = do
    fail_if (str_eq req.key_id "") key_id_required
    fail_if (str_eq (normalize_address env req.master) "") master_required
    key ← find_key req.key_id s
    fail_if (not (str_eq key.master (normalize_address env req.master))) not_master
    ok key

  abbrev pub authorize : KeyRequest → Bool → State → Result AgentError State
  authorize req signed s = do
    from_auth (
        verify_account_request env s req.chain_id (normalize_address env req.master) req.nonce
          signed)
    ok (consume_account_nonce env (normalize_address env req.master) s)

  unfoldable pub revoke_agent_key : KeyRequest → Bool → State → Result AgentError State
  revoke_agent_key req signed s = do
    key ← owned_key req s
    fail_if key.revoked revoked
    s' ← authorize req signed s
    ok (put_key req.key_id (record key { revoked = true }) s')

  unfoldable pub extend_agent_key : KeyRequest → ℕ → Bool → State → Result AgentError State
  extend_agent_key req wall signed s = do
    fail_if (leb req.value wall) expiry_past
    key ← owned_key req s
    fail_if key.revoked revoked
    s' ← authorize req signed s
    ok (put_key req.key_id (record key { expires_at = req.value }) s')

  unfoldable pub topup_agent_key : KeyRequest → Bool → State → Result AgentError State
  topup_agent_key req signed s = do
    key ← owned_key req s
    fail_if key.revoked revoked
    fail_if (ltb req.value key.used_total) below_used
    s' ← authorize req signed s
    ok (put_key req.key_id (record key { total_limit = req.value }) s')

  -- verifyAgentRequestLocked
  unfoldable pub verify_agent_request :
      String → String → ℕ → String → String → ℕ → ℕ → Bool → State → Result AgentError (Unit {0})
  verify_agent_request chain_id key_id agent_nonce master operation spend now signed s = do
    fail_if (str_eq chain_id "") chain_id_required
    fail_if (not (str_eq chain_id s.chain_id)) chain_id_mismatch
    key ← find_key key_id s
    fail_if key.revoked revoked
    fail_if (ltb 0 key.expires_at && ltb key.expires_at now) expired
    fail_if (not (str_eq (normalize_address env key.master) (normalize_address env master)))
        not_master
    fail_if (not (agent_key_allows_operation key.permissions operation)) lacks_permission
    fail_if (not (agent_nonce == key.nonce)) bad_agent_nonce
    fail_if (not signed) bad_agent_signature
    let used_today = if ltb key.day_reset_at now then 0 else key.used_today
    fail_if (agent_limit_exceeded used_today spend key.daily_limit) daily_limit_exceeded
    fail_if (agent_limit_exceeded key.used_total spend key.total_limit) total_limit_exceeded
