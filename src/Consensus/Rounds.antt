-- ===== src/Consensus/Rounds.antt =====
-- How heights and rounds move.
use falari.Prelude.{ℕ, ◌+◌, ◌%◌, ◌≤◌, ◌<◌, ◌≡◌, ◌⊎◌, false, ltb, ◌==◌, if◌then◌else◌, arith}
use falari.Arith.{u64_mod, add64}
use falari.State.{State}
use falari.Consensus.{advance_consensus_round, check_block_timeout, record_proposer_turn}

advance-round :
    (seed : ℕ → ℕ → ℕ) (now : ℕ) (s : State)
    → 0 < s.consensus_height
    → let s' = advance_consensus_round seed now s in
      (s'.consensus_round ≡ s.consensus_round)
      × (s'.consensus_height ≡ s.consensus_height)
      × (s'.blocks ≡ s.blocks)
      × (s'.accounts ≡ s.accounts)
unfolding advance_consensus_round
advance-round seed now s started = ground arith

-- A check of the block timeout leaves the accounts and the blocks alone, never lowers the height,
-- keeps the round between 0 and 5, and where it reports a timeout the round is the next one, after
-- the fifth again the first.
pub check_block_timeout-rounds :
    (timeout window : ℕ) (seed : ℕ → ℕ → ℕ) (now : ℕ) (s : State)
    → s.blocks + 1 < u64_mod
    → s.consensus_round ≤ 5
    → let (s', timed_out) = check_block_timeout timeout window seed now s in
      (s'.accounts ≡ s.accounts)
      × (s'.blocks ≡ s.blocks)
      × (s.consensus_height ≤ s'.consensus_height)
      × (s'.consensus_round ≤ 5)
      × ((timed_out ≡ false) ⊎ (s'.consensus_round ≡ (s.consensus_round + 1) % 6))
unfolding check_block_timeout record_proposer_turn
check_block_timeout-rounds timeout window seed now s fits small =
    let next = add64 s.consensus_round 1 in
    let s1 =
      record (record_proposer_turn window s.consensus_proposer false (record s {
        consensus_round_started_at_unix =
            if s.consensus_round_started_at_unix == 0
            then now
            else s.consensus_round_started_at_unix;
      })) { consensus_round = if ltb 5 next then 0 else next } in
    ground (arith, advance-round seed now s1)
