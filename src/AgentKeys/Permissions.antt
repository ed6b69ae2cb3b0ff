-- ===== src/AgentKeys/Permissions.antt =====
-- What an agent key may do: agentAllowedOps and normalizeAgentPermissions (agent_key.go),
-- agentKeyAllowsOperation and agentPermissionAliases (agent_request_auth.go).
use Prim.Native.Char.{code}
use Prim.Native.String.{compare}
use Prim.Native.Nat.{Ordering}
use falari.Prelude.{
  ℕ, String, Bool, false, not, ◌&&◌, ◌||◌, List, [], ◌∷◌, Result, ok, err, fail_if, ◌>>=◌, ◌>>◌,
  str_eq, ltb, leb, ◌==◌, if◌then◌else◌, length, contains, ◌≡◌, refl,
}

-- Shut, so that a lemma about any operation does not meet all twelve.
unfoldable pub agent_allowed_ops : List String
agent_allowed_ops =
    "create_intent" ∷ "batch_commit" ∷ "finalize" ∷ "renew" ∷ "terminate" ∷ "collection_create"
    ∷ "append_record" ∷ "create_key_envelope" ∷ "share_create" ∷ "share_revoke"
    ∷ "governance_action" ∷ "governance_review" ∷ []

abbrev pub max_agent_key_permissions : ℕ
max_agent_key_permissions = 10

pub data PermissionError : Type 0 where
  too_many invalid duplicate : PermissionError

-- strings.TrimSpace on ASCII text.
is_space : ℕ → Bool
is_space c = c == b' ' || leb 9 c && leb c 13

trim_left : String → String
trim_left String.[] = String.[]
trim_left (String.◌∷◌ c s) =
    let rest = trim_left s in if is_space (code c) then rest else String.◌∷◌ c s

trim_right : String → String
trim_right String.[] = String.[]
trim_right (String.◌∷◌ c s) =
    let rest = trim_right s in if is_space (code c) && str_eq rest "" then "" else String.◌∷◌ c rest

unfoldable pub trim_space : String → String
unfolding is_space trim_left trim_right
trim_space s = trim_right (trim_left s)

-- sort.Strings
unfoldable pub insert_sorted : String → List String → List String
insert_sorted p [] = p ∷ []
insert_sorted p (q ∷ qs) =
    let later = insert_sorted p qs in
    elim (compare p q) [ Ordering.gt ↦ q ∷ later | _ ↦ p ∷ q ∷ qs ]

unfoldable pub sort_strings : List String → List String
unfolding insert_sorted
sort_strings [] = []
sort_strings (p ∷ ps) = insert_sorted p (sort_strings ps)

-- The loop of normalizeAgentPermissions: each entry trimmed, known and new.
unfoldable pub checked_permissions :
    List String → List String → Result PermissionError (List String)
checked_permissions seen [] = ok []
checked_permissions seen (permission ∷ rest) =
    let p = trim_space permission in
    let later = checked_permissions (p ∷ seen) rest in
    if str_eq p "" || not (contains p agent_allowed_ops)
    then err invalid
    else if contains p seen
    then err duplicate
    else (do ps ← later; ok (p ∷ ps))

unfoldable pub normalize_agent_permissions : List String → Result PermissionError (List String)
unfolding checked_permissions
normalize_agent_permissions [] = ok (sort_strings agent_allowed_ops)
normalize_agent_permissions (p ∷ ps) = do
  fail_if (ltb max_agent_key_permissions (length (p ∷ ps))) too_many
  checked ← checked_permissions [] (p ∷ ps)
  ok (sort_strings checked)

unfoldable pub agent_permission_aliases : String → List String
agent_permission_aliases operation =
    if str_eq operation "finalize_deal"
    then "finalize" ∷ []
    else if str_eq operation "terminate_deal"
    then "terminate" ∷ []
    else if str_eq operation "create_collection"
    then "collection_create" ∷ []
    else if str_eq operation "create_share"
    then "share_create" ∷ []
    else if str_eq operation "revoke_share"
    then "share_revoke" ∷ []
    else if str_eq operation "direct_governance_action"
    then "governance_action" ∷ []
    else if str_eq operation "direct_action_review_vote"
    then "governance_review" ∷ []
    else if str_eq operation "deploy_contract"
    then "wasm_deploy" ∷ []
    else if str_eq operation "call_contract"
    then "wasm_call" ∷ []
    else []

unfoldable pub any_contained : List String → List String → Bool
any_contained [] permissions = false
any_contained (alias ∷ rest) permissions =
    contains alias permissions || any_contained rest permissions

unfoldable pub agent_key_allows_operation : List String → String → Bool
unfolding any_contained agent_permission_aliases
agent_key_allows_operation permissions operation =
    contains operation permissions || any_contained (agent_permission_aliases operation) permissions

trim_runs : trim_space "  renew " ≡ "renew"
unfolding trim_space
trim_runs = refl

normalize_runs :
    normalize_agent_permissions ("renew" ∷ " finalize" ∷ []) ≡ ok ("finalize" ∷ "renew" ∷ [])
unfolding normalize_agent_permissions trim_space sort_strings agent_allowed_ops
normalize_runs = refl
