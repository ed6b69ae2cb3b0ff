-- ===== src/AgentKeys/Scope.antt =====
-- What a registered key can be used for.
use falari.Prelude.{
  String, true, false, ◌||◌, List, [], ◌∷◌, ok, str_eq, eq_iff, contains, ◌≡◌, refl, inl, inr,
  arith, Bool-cases, Result-cases,
}
use falari.AgentKeys.Permissions.{
  agent_allowed_ops, sort_strings, insert_sorted, checked_permissions, normalize_agent_permissions,
  trim_space, agent_key_allows_operation, agent_permission_aliases, any_contained,
}

contains-insert_sorted :
    (k p : String) (qs : List String)
    → contains k (insert_sorted p qs) ≡ (str_eq k p || contains k qs)
unfolding insert_sorted
contains-insert_sorted k p [] = refl
contains-insert_sorted k p (q ∷ qs) = ground (arith, contains-insert_sorted k p qs)

contains-sort_strings :
    (k : String) (ps : List String) → contains k (sort_strings ps) ≡ contains k ps
unfolding sort_strings
contains-sort_strings k [] = refl
contains-sort_strings k (p ∷ ps) =
    ground (arith, contains-insert_sorted k p (sort_strings ps), contains-sort_strings k ps)

-- Membership carries over to another list.
abbrev pub Within : List String → List String → Type 0
Within ps qs = (k : String) → contains k ps ≡ true → contains k qs ≡ true

checked_permissions-Within :
    (seen requested : List String) (ps : List String)
    → checked_permissions seen requested ≡ ok ps
    → Within ps agent_allowed_ops
unfolding checked_permissions
checked_permissions-Within seen [] ps h k c = ground arith
checked_permissions-Within seen (r ∷ rest) ps h k c =
    elim (Result-cases (checked_permissions (trim_space r ∷ seen) rest)) [
      | inl (later, e) ↦ ground (
        arith,
        e,
        eq_iff k (trim_space r),
        checked_permissions-Within (trim_space r ∷ seen) rest later e k,
      )
      | inr (_, e) ↦ ground (arith, e)
    ]

normalize_agent_permissions-Within :
    (requested ps : List String)
    → normalize_agent_permissions requested ≡ ok ps
    → Within ps agent_allowed_ops
unfolding normalize_agent_permissions
normalize_agent_permissions-Within [] ps h k c =
    ground (arith, contains-sort_strings k agent_allowed_ops)
normalize_agent_permissions-Within (p ∷ rest) ps h k c =
    elim (Result-cases (checked_permissions [] (p ∷ rest))) [
      | inl (checked, e) ↦ ground (
        arith,
        e,
        contains-sort_strings k checked,
        checked_permissions-Within [] (p ∷ rest) checked e k,
      )
      | inr (_, e) ↦ ground (arith, e)
    ]

any_contained-Within :
    (aliases ps qs : List String)
    → Within ps qs
    → any_contained aliases ps ≡ true
    → any_contained aliases qs ≡ true
unfolding any_contained
any_contained-Within [] ps qs w h = h
any_contained-Within (a ∷ rest) ps qs w h = ground (arith, w a, any_contained-Within rest ps qs w)

-- Whatever permissions a key asks for, and also if it asks for none and gets all: an operation that
-- its normalised permissions allow is one that the full list of agent operations allows.
pub normalized_key_scope :
    (requested ps : List String) (operation : String)
    → normalize_agent_permissions requested ≡ ok ps
    → agent_key_allows_operation ps operation ≡ true
    → agent_key_allows_operation agent_allowed_ops operation ≡ true
unfolding agent_key_allows_operation
normalized_key_scope requested ps operation h allowed =
    let w = normalize_agent_permissions-Within requested ps h in
    ground (
      arith,
      w operation,
      any_contained-Within (agent_permission_aliases operation) ps agent_allowed_ops w,
    )

refused :
    (requested ps : List String) (operation : String)
    → normalize_agent_permissions requested ≡ ok ps
    → agent_key_allows_operation agent_allowed_ops operation ≡ false
    → agent_key_allows_operation ps operation ≡ false
refused requested ps operation h never =
    elim (Bool-cases (agent_key_allows_operation ps operation)) [
      | inl allowed ↦ cc (normalized_key_scope requested ps operation h allowed)
      | inr e ↦ e
    ]

never_allowed :
    (agent_key_allows_operation agent_allowed_ops "transfer" ≡ false)
    × (agent_key_allows_operation agent_allowed_ops "delegate_stake" ≡ false)
    × (agent_key_allows_operation agent_allowed_ops "bridge_out" ≡ false)
    × (agent_key_allows_operation agent_allowed_ops "multisig_exec" ≡ false)
unfolding agent_key_allows_operation agent_allowed_ops
never_allowed = (refl, refl, refl, refl)

-- Whatever permissions a key asks for, the normalised ones allow no transfer, no delegation of
-- stake, no transfer over the bridge and no multisig operation.
pub no_key_moves_funds :
    (requested ps : List String)
    → normalize_agent_permissions requested ≡ ok ps
    → (agent_key_allows_operation ps "transfer" ≡ false)
      × (agent_key_allows_operation ps "delegate_stake" ≡ false)
      × (agent_key_allows_operation ps "bridge_out" ≡ false)
      × (agent_key_allows_operation ps "multisig_exec" ≡ false)
no_key_moves_funds requested ps h =
    let (transfer, delegate, bridge, multisig) = never_allowed in
    (
      refused requested ps "transfer" h transfer,
      refused requested ps "delegate_stake" h delegate,
      refused requested ps "bridge_out" h bridge,
      refused requested ps "multisig_exec" h multisig,
    )
