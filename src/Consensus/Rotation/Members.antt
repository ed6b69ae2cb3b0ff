-- ===== src/Consensus/Rotation/Members.antt =====
-- Who gets into the consensus set.
use falari.Prelude.{
  ℕ, ◌≤◌, ◌∙◌, String, Bool, true, false, ◌||◌, List, [], ◌∷◌, ◌≡◌, refl, ◌⊎◌, inl, inr, sym,
  length, arith, str_eq, eq_iff,
}
use falari.Dict.{Dict, has, insert}
use falari.Dict.Laws.{lookup-insert}
use falari.Types.{ValidatorInfo}
use falari.State.{State}
use falari.Consensus.Rotation.{
  active_candidates, insert_ranked, ranked, select_top, fill_up, or_else, new_set,
}

-- An address is the owner of one of the validators.
unfoldable pub owned_in : String → List ValidatorInfo → Bool
owned_in a [] = false
owned_in a (v ∷ vs) = str_eq v.owner_address a || owned_in a vs

pub has-insert :
    (k j : String) (set : Dict Bool) → has j (insert k true set) ≡ (str_eq k j || has j set)
has-insert k j set = ground (arith, lookup-insert k j true set)

owned-insert_ranked :
    (s : State) (a : String) (v : ValidatorInfo) (vs : List ValidatorInfo)
    → owned_in a (insert_ranked s v vs) ≡ (str_eq v.owner_address a || owned_in a vs)
unfolding owned_in insert_ranked
owned-insert_ranked s a v [] = refl
owned-insert_ranked s a v (w ∷ ws) = ground (arith, owned-insert_ranked s a v ws)

pub owned-ranked :
    (s : State) (a : String) (vs : List ValidatorInfo) → owned_in a (ranked s vs) ≡ owned_in a vs
unfolding owned_in ranked
owned-ranked s a [] = refl
owned-ranked s a (v ∷ vs) =
    ground (arith, owned-insert_ranked s a v (ranked s vs), owned-ranked s a vs)

select_top-owned :
    (s : State) (most least threshold : ℕ) (vs : List ValidatorInfo) (chosen : Dict Bool)
    (a : String)
    → has a (select_top s most least threshold vs chosen) ≡ true
    → (owned_in a vs ≡ true) ⊎ (has a chosen ≡ true)
unfolding owned_in select_top
select_top-owned s most least threshold [] chosen a h = inr h
select_top-owned s most least threshold (v ∷ vs) chosen a h = ground (
  arith,
  has-insert v.owner_address a chosen,
  select_top-owned s most least threshold vs chosen a,
  select_top-owned s most least threshold vs (insert v.owner_address true chosen) a,
)

fill_up-owned :
    (least : ℕ) (vs : List ValidatorInfo) (chosen : Dict Bool) (a : String)
    → has a (fill_up least vs chosen) ≡ true
    → (owned_in a vs ≡ true) ⊎ (has a chosen ≡ true)
unfolding owned_in fill_up
fill_up-owned least [] chosen a h = inr h
fill_up-owned least (v ∷ vs) chosen a h = ground (
  arith,
  has-insert v.owner_address a chosen,
  fill_up-owned least vs chosen a,
  fill_up-owned least vs (insert v.owner_address true chosen) a,
)

-- The second loop ends with the least number of members, or with everyone.
pub fill_up-reaches :
    (least : ℕ) (vs : List ValidatorInfo) (chosen : Dict Bool) (a : String)
    → (least ≤ length (fill_up least vs chosen))
      ⊎ ((has a chosen ≡ true → has a (fill_up least vs chosen) ≡ true)
          × (owned_in a vs ≡ true → has a (fill_up least vs chosen) ≡ true))
unfolding owned_in fill_up
fill_up-reaches least [] chosen a = inr ((λ h. h), λ h. ground arith)
fill_up-reaches least (v ∷ vs) chosen a = ground (
  arith,
  eq_iff v.owner_address a,
  has-insert v.owner_address a chosen,
  fill_up-reaches least vs chosen a,
  fill_up-reaches least vs (insert v.owner_address true chosen) a,
)

pub new_set-owned :
    (s : State) (a : String)
    → has a (new_set s) ≡ true
    → owned_in a (active_candidates s.validators) ≡ true
new_set-owned s a h =
    let params = s.mining_params in
    let least = or_else 2 params.min_consensus_validators in
    let most = or_else 21 params.max_consensus_validators in
    let threshold = or_else 6000 params.availability_threshold_bps in
    let all = ranked s (active_candidates s.validators) in
    let same = sym (owned-ranked s a (active_candidates s.validators)) in
    elim (fill_up-owned least all (select_top s most least threshold all []) a h) [
      | inl late ↦ same ∙ late
      | inr early ↦ elim (select_top-owned s most least threshold all [] a early) [
        | inl top ↦ same ∙ top
        | inr none_before ↦ absurd (ground (arith, none_before))
      ]
    ]
