-- ===== src/Arith/Quorum.antt =====
-- The quorum of two thirds: any two quorums share more than a third of the voting power.
use falari.Prelude.{ℕ, ◌+◌, ◌*◌, ◌≤◌, ◌<◌, arith}
use falari.Arith.{u64_mod, bft_threshold}

-- For a uint64 total power above 0 the threshold is between 1 and the total power, so a quorum
-- exists; and two sets of voters that each reach it overlap in more than a third of the power, so
-- they share an honest voter whenever the faulty ones hold at most a third.
pub bft_threshold_intersection :
    (total first second common : ℕ)
    → 0 < total
    → total < u64_mod
    → bft_threshold total ≤ first
    → bft_threshold total ≤ second
    → first + second ≤ total + common
    → (0 < bft_threshold total) × (bft_threshold total ≤ total) × (total < 3 * common)
unfolding bft_threshold
bft_threshold_intersection total first second common pos fits h k overlap = ground arith
