-- ===== src/Consensus.antt =====
-- Rounds of the consensus (internal/chain/consensus_engine.go) and the availability of proposers
-- (internal/chain/availability.go). The seed of a height and round is a hash that is an argument;
-- so are the configured timeout, in seconds, and the length of the availability window.
pub mod Turns
pub mod Selection
pub mod Rounds
pub mod Rotation
use falari.Prelude.{
  ℕ, zero, suc, ◌+◌, ◌-◌, ◌*◌, ◌/◌, ◌%◌, ◌^◌, String, Bool, true, false, not, ◌||◌, ◌&&◌, List, [],
  ◌∷◌, ◌++◌, Option, none, some, str_eq, ltb, leb, ◌==◌, if◌then◌else◌, length, map,
}
use falari.Arith.{add64, mul64, saturating_add}
use falari.Dict.{Dict, lookup, insert}
use falari.Types.{ValidatorInfo, ValidatorTurnWindow}
use falari.State.{State, Phase, unset, propose, prevote, precommit, commit, wait}
use falari.Staking.{is_active}
use falari.AgentKeys.Permissions.{sort_strings}

-- window.Turns[i] and its assignment
unfoldable pub turn_at : ℕ → List Bool → Bool
turn_at i [] = false
turn_at zero (t ∷ ts) = t
turn_at (suc i) (t ∷ ts) = turn_at i ts

unfoldable pub put_turn : ℕ → Bool → List Bool → List Bool
put_turn i b [] = []
put_turn zero b (t ∷ ts) = b ∷ ts
put_turn (suc i) b (t ∷ ts) = t ∷ put_turn i b ts

-- The overwritten turn no longer counts.
abbrev forget : Bool → ValidatorTurnWindow → ValidatorTurnWindow
forget old w =
    if old then record w { successes = w.successes - 1 } else record w { misses = w.misses - 1 }

abbrev count_turn : Bool → ValidatorTurnWindow → ValidatorTurnWindow
count_turn produced w =
    if produced
    then record w { successes = add64 w.successes 1 }
    else record w { misses = add64 w.misses 1 }

abbrev pub appended : Bool → ValidatorTurnWindow → ValidatorTurnWindow
appended produced w = record w { turns = w.turns ++ produced ∷ [] }

abbrev pub overwritten : Bool → ValidatorTurnWindow → ValidatorTurnWindow
overwritten produced w = record (forget (turn_at w.head w.turns) w) {
  turns = put_turn w.head produced w.turns;
}

-- recordProposerTurnLocked on a validator's window of a given size
unfoldable pub write_turn : ℕ → Bool → ValidatorTurnWindow → ValidatorTurnWindow
write_turn size produced w =
    record (count_turn produced
      (if ltb (length w.turns) size then appended produced w else overwritten produced w)) {
        head = (w.head + 1) % size;
      }

unfoldable pub record_turn : ℕ → Bool → ValidatorTurnWindow → ValidatorTurnWindow
record_turn configured produced w =
    write_turn (if configured == 0 then 7200 else configured) produced w

abbrev pub empty_window : ValidatorTurnWindow
empty_window = record { successes = 0; misses = 0; turns = []; head = 0 }

abbrev pub window_of : String → State → ValidatorTurnWindow
window_of a s = elim (lookup a s.proposer_turns) [ none ↦ empty_window | some w ↦ w ]

unfoldable pub record_proposer_turn : ℕ → String → Bool → State → State
record_proposer_turn configured a produced s = record s {
  proposer_turns = insert a (record_turn configured produced (window_of a s)) s.proposer_turns;
}

unfoldable pub window_score : ValidatorTurnWindow → ℕ
window_score w =
    let total = add64 w.successes w.misses in
    if total == 0 then 10000 else mul64 w.successes 10000 / total

unfoldable pub availability_score : String → State → ℕ
availability_score a s = elim (lookup a s.proposer_turns) [ none ↦ 10000 | some w ↦ window_score w ]

unfoldable pub validator_power : ValidatorInfo → ℕ
validator_power v =
    let self_stake = if v.self_stake == 0 then v.stake else v.self_stake in
    let total = saturating_add self_stake v.delegated_stake in if ltb 0 total then total else 1

unfoldable pub raw_power : String → State → ℕ
raw_power a s = elim (lookup a s.validators) [
  | none ↦ 0
  | some v ↦ if is_active v.status then validator_power v else 0
]

unfoldable pub effective_power : String → State → ℕ
effective_power a s =
    if raw_power a s == 0 then 0 else mul64 (raw_power a s) (availability_score a s) / 10000

abbrev active_in : State → String → Bool
active_in s a = elim (lookup a s.validators) [ none ↦ false | some v ↦ is_active v.status ]

unfoldable pub active_addresses : State → Dict Bool → List String
active_addresses s [] = []
active_addresses s ((a, _) ∷ rest) =
    let later = active_addresses s rest in if active_in s a then a ∷ later else later

-- consensusValidatorAddressesLocked
unfoldable pub consensus_validator_addresses : State → List String
consensus_validator_addresses s = sort_strings (active_addresses s s.consensus_validators)

unfoldable pub total_power : ℕ → List (String × ℕ) → ℕ
total_power sum [] = sum
total_power sum ((_, p) ∷ rest) = total_power (saturating_add sum p) rest

-- The loop that looks for the threshold; the last address is the fallback.
unfoldable pub pick : ℕ → ℕ → String → List (String × ℕ) → String
pick threshold cumulative last [] = last
pick threshold cumulative last ((a, p) ∷ rest) =
    let reached = saturating_add cumulative p in
    let later = pick threshold reached a rest in if ltb threshold reached then a else later

abbrev pub powers : State → List (String × ℕ)
powers s = map (λ a. (a, effective_power a s)) (consensus_validator_addresses s)

-- selectProposerLocked, on the addresses with their powers
unfoldable pub select_from : ℕ → List (String × ℕ) → Option String
select_from seed ps =
    let total = total_power 0 ps in if total == 0 then none else some (pick (seed % total) 0 "" ps)

unfoldable pub advance_consensus_round : (ℕ → ℕ → ℕ) → ℕ → State → State
advance_consensus_round seed now s =
    let height = if s.consensus_height == 0 then add64 s.blocks 1 else s.consensus_height in
    let phase = elim s.consensus_phase as (λ p. Phase) [ unset ↦ propose | p ↦ p ] in
    elim (select_from (seed height s.consensus_round) (powers s)) [
      | none ↦ record s { consensus_height = height; consensus_phase = phase }
      | some proposer ↦ record s {
        consensus_height = height;
        consensus_proposer = proposer;
        consensus_phase = propose;
        consensus_round_started_at_unix = now;
      }
    ]

abbrev pub max_consensus_rounds : ℕ
max_consensus_rounds = 5

abbrev is_propose : Phase → Bool
is_propose propose = true
is_propose _ = false

-- checkBlockTimeoutLocked
unfoldable pub check_block_timeout : ℕ → ℕ → (ℕ → ℕ → ℕ) → ℕ → State → State × Bool
check_block_timeout timeout window seed now s =
    let expected = add64 s.blocks 1 in
    if not (is_propose s.consensus_phase)
    then (s, false)
    else if ltb s.consensus_height expected
    then (
      record s {
        consensus_height = expected;
        consensus_round = 0;
        consensus_phase = propose;
        consensus_round_started_at_unix = now;
      },
      false,
    )
    else if s.consensus_height == expected
    then (let start =
          if s.consensus_round_started_at_unix == 0
          then now
          else s.consensus_round_started_at_unix in
        let s1 = record s { consensus_round_started_at_unix = start } in
        if leb (start + timeout) now && not (str_eq s.consensus_proposer "")
        then (let next = add64 s.consensus_round 1 in
            (
              advance_consensus_round seed now
                  (record (record_proposer_turn window s.consensus_proposer false s1) {
                    consensus_round = if ltb max_consensus_rounds next then 0 else next;
                  }),
              true,
            ))
        else (s1, false))
    else (s, false)

-- transitionConsensusPhaseLocked
unfoldable pub transition_consensus_phase : ℕ → State → State
transition_consensus_phase next_height s =
    if ltb s.consensus_height next_height
    then record s { consensus_height = next_height; consensus_round = 0; consensus_phase = propose }
    else s

-- A block, as far as finalizeConsensusForBlockLocked reads it.
pub record BlockFinality : Type 0 where
  pub height : ℕ
  pub finalized : Bool
  pub round : ℕ

unfoldable pub finalize_consensus_for_block : BlockFinality → State → State
finalize_consensus_for_block block s =
    let s1 =
      if ltb s.consensus_height block.height
      then record s { consensus_height = block.height; consensus_round = 0 }
      else s in
    if block.finalized
    then record s1 {
      consensus_height = add64 block.height 1;
      consensus_round = 0;
      consensus_phase = propose;
    }
    else if block.height == s1.consensus_height
    then record s1 { consensus_round = add64 block.round 1 }
    else s1

unfoldable pub is_upgrade_halted : ℕ → ℕ → State → Bool
is_upgrade_halted height time s =
    ltb 0 s.upgrade_plan.halt_height && leb s.upgrade_plan.halt_height height
    || ltb 0 s.upgrade_plan.halt_time && leb s.upgrade_plan.halt_time time
