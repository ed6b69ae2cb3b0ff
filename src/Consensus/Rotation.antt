-- ===== src/Consensus/Rotation.antt =====
-- The choice of the consensus validators at the end of an epoch
-- (internal/chain/validator_rotation.go). The record of the transaction is left out; Go walks the
-- map of validators in any order before it sorts, the model in the order of the list.
pub mod Members
pub mod Size
use Prim.Native.String.{compare}
use Prim.Native.Nat.{Ordering}
use falari.Prelude.{
  ℕ, zero, suc, ◌+◌, String, Bool, true, false, not, ◌||◌, ◌&&◌, List, [], ◌∷◌, ltb, leb, ◌==◌,
  if◌then◌else◌, length,
}
use falari.Dict.{Dict, has, insert}
use falari.Types.{ValidatorInfo}
use falari.State.{State}
use falari.Staking.{is_active}
use falari.Consensus.{availability_score, effective_power, consensus_validator_addresses}

-- activeValidatorCandidatesLocked
unfoldable pub active_candidates : Dict ValidatorInfo → List ValidatorInfo
active_candidates [] = []
active_candidates ((_, v) ∷ rest) =
    let later = active_candidates rest in if is_active v.status then v ∷ later else later

abbrev pub text_before : String → String → Bool
text_before a b = elim (compare a b) [ Ordering.lt ↦ true | _ ↦ false ]

-- The order of the sort: by effective power, then by blocks produced, then by address.
unfoldable pub ranks_before : State → ValidatorInfo → ValidatorInfo → Bool
ranks_before s a b =
    let left = effective_power a.owner_address s in
    let right = effective_power b.owner_address s in
    if not (left == right)
    then ltb right left
    else if not (a.produced_blocks == b.produced_blocks)
    then ltb b.produced_blocks a.produced_blocks
    else text_before a.owner_address b.owner_address

unfoldable pub insert_ranked : State → ValidatorInfo → List ValidatorInfo → List ValidatorInfo
insert_ranked s v [] = v ∷ []
insert_ranked s v (w ∷ ws) =
    let later = insert_ranked s v ws in if ranks_before s w v then w ∷ later else v ∷ w ∷ ws

unfoldable pub ranked : State → List ValidatorInfo → List ValidatorInfo
ranked s [] = []
ranked s (v ∷ vs) = insert_ranked s v (ranked s vs)

-- The loop over the candidates: the first is the greatest number, the second the least.
unfoldable pub select_top : State → ℕ → ℕ → ℕ → List ValidatorInfo → Dict Bool → Dict Bool
select_top s most least threshold [] chosen = chosen
select_top s most least threshold (v ∷ vs) chosen =
    let low = ltb (availability_score v.owner_address s) threshold && leb least (length chosen) in
    let later =
      select_top s most least threshold vs
        (if low then chosen else insert v.owner_address true chosen) in
    if leb most (length chosen) then chosen else later

-- The second loop, which ensures the least number.
unfoldable pub fill_up : ℕ → List ValidatorInfo → Dict Bool → Dict Bool
fill_up least [] chosen = chosen
fill_up least (v ∷ vs) chosen =
    let later =
      fill_up least vs
        (if has v.owner_address chosen then chosen else insert v.owner_address true chosen) in
    if leb least (length chosen) then chosen else later

abbrev pub or_else : ℕ → ℕ → ℕ
or_else other n = if n == 0 then other else n

abbrev pub new_set : State → Dict Bool
new_set s =
    let params = s.mining_params in
    let least = or_else 2 params.min_consensus_validators in
    let candidates = ranked s (active_candidates s.validators) in
    fill_up least candidates (
      select_top s (or_else 21 params.max_consensus_validators) least
        (or_else 6000 params.availability_threshold_bps) candidates [])

-- The keys of the first set that are not in the second.
unfoldable pub outside : List String → Dict Bool → List String
outside [] set = []
outside (a ∷ rest) set = let later = outside rest set in if has a set then later else a ∷ later

-- rotateValidatorsLocked: the new state, and the addresses that are removed. Without a candidate
-- the set stays.
unfoldable pub rotate_validators : State → State × List String
rotate_validators s = elim (active_candidates s.validators) [
  | [] ↦ (s, [])
  | _ ∷ _ ↦ (
    record s { consensus_validators = new_set s },
    outside (consensus_validator_addresses s) (new_set s),
  )
]
