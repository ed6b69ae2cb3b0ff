-- ===== src/Witness/Rounds.antt =====
-- Examples for proposers and rounds.
use falari.Prelude.{length, Bool, ◌≤◌, ◌⊎◌, ◌≡◌, refl, [], ◌∷◌, some, arith, true}
use falari.Arith.{saturating_add}
use falari.Dict.{Dict, has}
use falari.Types.{ValidatorInfo, ValidatorStatus}
use falari.State.{State}
use falari.Consensus.{
  select_from, effective_power, raw_power, validator_power, availability_score, active_addresses,
  consensus_validator_addresses,
}
use falari.AgentKeys.Permissions.{sort_strings}
use falari.Consensus.Rotation.{
  rotate_validators, active_candidates, ranked, insert_ranked, ranks_before, select_top, fill_up,
  outside,
}
use falari.Consensus.Rotation.Members.{owned_in}
use falari.Consensus.Rotation.Size.{rotate_validators_lem}
use falari.TokenRelease.Validators.{no_validator}
use falari.Consensus.Selection.{select_from_share}
use falari.Fixtures.{chain}

select_from_share_example : select_from 107 (("a", 40) ∷ ("b", 10) ∷ ("c", 50) ∷ []) ≡ some "a"
select_from_share_example =
    select_from_share 107 "a" 40 [] (("b", 10) ∷ ("c", 50) ∷ []) (omega arith) (omega arith)
      (omega arith)

-- Two active validators and one that has left.
abbrev first : ValidatorInfo
first = record (no_validator "0xa1") { stake = 500; status = ValidatorStatus.active }

abbrev second : ValidatorInfo
second = record (no_validator "0xb2") { stake = 900; status = ValidatorStatus.active }

abbrev gone : ValidatorInfo
gone = record (no_validator "0xc3") { stake = 900; status = ValidatorStatus.exited }

abbrev epoch : State
epoch = record chain {
  validators = ("0xa1", first) ∷ ("0xb2", second) ∷ ("0xc3", gone) ∷ [];
  consensus_validators = ("0xc3", true) ∷ [];
}

two_active : length (active_candidates epoch.validators) ≡ 2
unfolding active_candidates
two_active = refl

rotation_runs :
    rotate_validators epoch
    ≡ (record epoch { consensus_validators = ("0xb2", true) ∷ ("0xa1", true) ∷ [] }, [])
unfolding rotate_validators active_candidates ranked insert_ranked ranks_before effective_power
    raw_power validator_power availability_score select_top fill_up outside active_addresses
    saturating_add consensus_validator_addresses sort_strings
rotation_runs = refl

abbrev set : Dict Bool
set = (rotate_validators epoch).0.consensus_validators

rotate_validators_lem_example :
    (length set ≤ 21)
    × (has "0xb2" set ≡ true → owned_in "0xb2" (active_candidates epoch.validators) ≡ true)
    × ((2 ≤ length set)
        ⊎ (owned_in "0xb2" (active_candidates epoch.validators) ≡ true → has "0xb2" set ≡ true))
rotate_validators_lem_example =
    rotate_validators_lem epoch "0xb2" (omega (arith, two_active)) (omega arith)
