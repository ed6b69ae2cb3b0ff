-- ===== src/Consensus/Rotation/Size.antt =====
-- How large the consensus set becomes.
use falari.Prelude.{
  ℕ, suc, ◌≤◌, ◌<◌, String, Bool, true, List, [], ◌∷◌, ◌≡◌, ◌⊎◌, inl, inr, length, arith, ◌∙◌,
}
use falari.Dict.{Dict, has, insert}
use falari.Types.{ValidatorInfo}
use falari.State.{State}
use falari.Consensus.Rotation.{
  active_candidates, ranked, select_top, fill_up, or_else, new_set, rotate_validators,
}
use falari.Consensus.Rotation.Members.{owned_in, owned-ranked, new_set-owned, fill_up-reaches}

length-insert : (k : String) (set : Dict Bool) → length (insert k true set) ≤ suc (length set)
length-insert k [] = omega arith
length-insert k ((j, b) ∷ rest) = ground (arith, length-insert k rest)

select_top-le :
    (s : State) (most least threshold : ℕ) (vs : List ValidatorInfo) (chosen : Dict Bool)
    → length chosen ≤ most
    → length (select_top s most least threshold vs chosen) ≤ most
unfolding select_top
select_top-le s most least threshold [] chosen h = h
select_top-le s most least threshold (v ∷ vs) chosen h = ground (
  arith,
  length-insert v.owner_address chosen,
  select_top-le s most least threshold vs chosen,
  select_top-le s most least threshold vs (insert v.owner_address true chosen),
)

fill_up-le :
    (most least : ℕ) (vs : List ValidatorInfo) (chosen : Dict Bool)
    → least ≤ most
    → length chosen ≤ most
    → length (fill_up least vs chosen) ≤ most
unfolding fill_up
fill_up-le most least [] chosen order h = h
fill_up-le most least (v ∷ vs) chosen order h = ground (
  arith,
  length-insert v.owner_address chosen,
  fill_up-le most least vs chosen order,
  fill_up-le most least vs (insert v.owner_address true chosen) order,
)

rotated :
    (s : State)
    → 0 < length (active_candidates s.validators)
    → (rotate_validators s).0.consensus_validators ≡ new_set s
unfolding rotate_validators
rotated s some_active = ground arith

-- The consensus set that a rotation leaves has at most the greatest number of members; every member
-- is the owner of an active validator; and it has the least number of members, or every owner of
-- an active validator is one. It holds where there is an active validator and the least number, as
-- configured or by default, is not above the greatest.
pub rotate_validators_lem :
    (s : State) (a : String)
    → 0 < length (active_candidates s.validators)
    → let params = s.mining_params in
      let least = or_else 2 params.min_consensus_validators in
      let most = or_else 21 params.max_consensus_validators in
      least ≤ most
      → let set = (rotate_validators s).0.consensus_validators in
        (length set ≤ most)
        × (has a set ≡ true → owned_in a (active_candidates s.validators) ≡ true)
        × ((least ≤ length set)
            ⊎ (owned_in a (active_candidates s.validators) ≡ true → has a set ≡ true))
rotate_validators_lem s a some_active order =
    let params = s.mining_params in
    let least = or_else 2 params.min_consensus_validators in
    let most = or_else 21 params.max_consensus_validators in
    let threshold = or_else 6000 params.availability_threshold_bps in
    let all = ranked s (active_candidates s.validators) in
    let top = select_top s most least threshold all [] in
    let small =
      fill_up-le most least all top order
        (select_top-le s most least threshold all [] (omega arith)) in
    rw (rotated s some_active) (
      small,
      new_set-owned s a,
      elim (fill_up-reaches least all top a) [
        | inl enough ↦ inl enough
        | inr (_, everyone) ↦
            inr (λ h. everyone (owned-ranked s a (active_candidates s.validators) ∙ h))
      ],
    )
