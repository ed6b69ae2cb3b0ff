-- ===== src/Witness/Keys.antt =====
-- Examples for agent keys: one key with limits, and its owner's requests on the sample chain.
use falari.Prelude.{ℕ, ◌+◌, ◌≤◌, ◌≡◌, refl, [], ◌∷◌, ok, arith, true, false}
use falari.Types.{AgentKey}
use falari.Env.{normalize_address}
use falari.State.{State}
use falari.Accounts.{account_at, account_locked, verify_account_request, consume_account_nonce}
use falari.AgentKeys.{consume_all}
use falari.AgentKeys.Caps.{spend-le-total_limit, spend-le-daily_limit}
use falari.AgentKeys.Permissions.{
  agent_allowed_ops, normalize_agent_permissions, agent_key_allows_operation, sort_strings,
  trim_space,
}
use falari.AgentKeys.Scope.{no_key_moves_funds}
use falari.AgentKeys.Requests.{
  KeyRequest, RegisterAgentKeyRequest, revoke_agent_key, put_key, cleaned,
}
use falari.Fixtures.{env, chain}

abbrev key : AgentKey
key = record {
  key_id = "k";
  name = "bot";
  master = "0xAB";
  agent_pub = "pub";
  nonce = 0;
  permissions = "create_intent" ∷ [];
  daily_limit = 50;
  total_limit = 80;
  used_today = 0;
  used_total = 0;
  day_reset_at = 86400;
  created_at = 5;
  expires_at = 0;
  revoked = false;
}

spend-le-total_limit_example :
    0 + (consume_all key ((6, 40) ∷ (90000, 40) ∷ (90001, 40) ∷ [])).1 ≤ 80
spend-le-total_limit_example =
    spend-le-total_limit key ((6, 40) ∷ (90000, 40) ∷ (90001, 40) ∷ []) (omega arith) (omega arith)
      (omega arith)

spend-le-daily_limit_example : 0 + (consume_all key ((6, 30) ∷ (7, 30) ∷ [])).1 ≤ 50
spend-le-daily_limit_example =
    spend-le-daily_limit key ((6, 30) ∷ (7, 30) ∷ []) (omega arith) (omega arith) (omega arith)
      (omega arith, (omega arith, tt))

abbrev unlimited : AgentKey
unlimited = record key { total_limit = 0 }

no_key_moves_funds_example :
    (agent_key_allows_operation ("create_intent" ∷ []) "transfer" ≡ false)
    × (agent_key_allows_operation ("create_intent" ∷ []) "delegate_stake" ≡ false)
    × (agent_key_allows_operation ("create_intent" ∷ []) "bridge_out" ≡ false)
    × (agent_key_allows_operation ("create_intent" ∷ []) "multisig_exec" ≡ false)
unfolding normalize_agent_permissions agent_key_allows_operation trim_space agent_allowed_ops
    sort_strings
no_key_moves_funds_example = no_key_moves_funds (" create_intent " ∷ []) ("create_intent" ∷ []) refl

abbrev with_key : State
with_key = record chain { agent_keys = ("k", key) ∷ [] }

abbrev order : ℕ → KeyRequest
order value = record {
  chain_id = "falari";
  master = "0xab";
  key_id = "k";
  value = value;
  nonce = 7;
}

abbrev left_by : AgentKey → State
left_by changed = put_key "k" changed (consume_account_nonce env "0xAB" with_key)

revoke_accepted :
    revoke_agent_key env (order 0) true with_key ≡ ok (left_by (record key { revoked = true }))
unfolding revoke_agent_key normalize_address verify_account_request account_locked account_at
revoke_accepted = refl

abbrev registration : RegisterAgentKeyRequest
registration = record {
  chain_id = "falari";
  master = "0xab";
  name = "bot";
  agent_pub = "pub";
  permissions = [];
  daily_limit = 50;
  total_limit = 80;
  expires_at = 0;
  nonce = 7;
}

abbrev recorded : RegisterAgentKeyRequest
recorded = cleaned env registration (sort_strings agent_allowed_ops)
