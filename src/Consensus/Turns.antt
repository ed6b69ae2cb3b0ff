-- ===== src/Consensus/Turns.antt =====
-- The window of a proposer's turns.
use native.Mathlib.Nat.{mod-eq_of_lt, mod_self, div-le_of_le-mul}
use falari.Prelude.{
  ℕ, zero, suc, ◌+◌, ◌*◌, ◌/◌, ◌%◌, ◌^◌, ◌≤◌, ◌<◌, ◌≡◌, ◌⊎◌, ◌∙◌, refl, inl, inr, Bool, true, false,
  List, [], ◌∷◌, ◌++◌, sum_by, sum_by-append, length, ltb, ◌==◌, if◌then◌else◌, Bool-cases, ap,
  arith,
}
use falari.Arith.{u64_mod, add64, mul64}
use falari.Types.{ValidatorTurnWindow}
use falari.Consensus.{turn_at, put_turn, write_turn, record_turn, window_score}

abbrev pub one_if : Bool → ℕ
one_if b = if b then 1 else 0

abbrev pub none_if : Bool → ℕ
none_if b = if b then 0 else 1

-- The counters agree with the turns, which fill the window from its start and then go round in it.
abbrev pub IsSound : ℕ → ValidatorTurnWindow → Type 0
IsSound size w =
    (w.successes ≡ sum_by one_if w.turns)
    × (w.misses ≡ sum_by none_if w.turns)
    × (length w.turns ≤ size)
    × (w.head < size)
    × ((length w.turns ≡ size) ⊎ (w.head ≡ length w.turns))

length-append_one : (ts : List Bool) (b : Bool) → length (ts ++ b ∷ []) ≡ length ts + 1
length-append_one [] b = refl
length-append_one (t ∷ ts) b = omega (arith, length-append_one ts b)

length-put_turn : (i : ℕ) (b : Bool) (ts : List Bool) → length (put_turn i b ts) ≡ length ts
unfolding put_turn
length-put_turn i b [] = refl
length-put_turn zero b (t ∷ ts) = refl
length-put_turn (suc i) b (t ∷ ts) = omega (arith, length-put_turn i b ts)

sum-put_turn :
    (f : Bool → ℕ) (i : ℕ) (b : Bool) (ts : List Bool)
    → i < length ts
    → sum_by f (put_turn i b ts) + f (turn_at i ts) ≡ sum_by f ts + f b
unfolding put_turn turn_at
sum-put_turn f i b [] h = absurd (omega arith)
sum-put_turn f zero b (t ∷ ts) h = omega arith
sum-put_turn f (suc i) b (t ∷ ts) h = omega (arith, sum-put_turn f i b ts (omega arith))

turn_at-le-sum :
    (f : Bool → ℕ) (i : ℕ) (ts : List Bool) → i < length ts → f (turn_at i ts) ≤ sum_by f ts
unfolding turn_at
turn_at-le-sum f i [] h = absurd (omega arith)
turn_at-le-sum f zero (t ∷ ts) h = omega arith
turn_at-le-sum f (suc i) (t ∷ ts) h = omega (arith, turn_at-le-sum f i ts (omega arith))

sums-length : (ts : List Bool) → sum_by one_if ts + sum_by none_if ts ≡ length ts
sums-length [] = refl
sums-length (true ∷ ts) = omega (arith, sums-length ts)
sums-length (false ∷ ts) = omega (arith, sums-length ts)

-- The head goes round.
next_head : (h size : ℕ) → h < size → (h + 1) % size ≡ (if h + 1 == size then 0 else h + 1)
next_head h size inside = elim (Bool-cases (h + 1 == size)) [
  | inl e ↦
      (let last : h + 1 ≡ size = ground arith in
        rw e (ap (λ (n : ℕ). n % size) last ∙ mod_self size))
  | inr e ↦ rw e (mod-eq_of_lt (ground arith))
]

write_turn-appends :
    (size : ℕ) (produced : Bool) (w : ValidatorTurnWindow)
    → size < u64_mod
    → IsSound size w
    → ltb (length w.turns) size ≡ true
    → IsSound size (write_turn size produced w)
unfolding write_turn
write_turn-appends size produced w fits (successes, misses, short, inside, place) room =
    rw (write_turn, room)
      (ground (
        arith,
        room,
        next_head w.head size inside,
        sum_by-append one_if w.turns (produced ∷ []),
        sum_by-append none_if w.turns (produced ∷ []),
        length-append_one w.turns produced,
        sums-length w.turns,
      ))

write_turn-overwrites :
    (size : ℕ) (produced : Bool) (w : ValidatorTurnWindow)
    → size < u64_mod
    → IsSound size w
    → ltb (length w.turns) size ≡ false
    → IsSound size (write_turn size produced w)
unfolding write_turn
write_turn-overwrites size true w fits (successes, misses, short, inside, place) full =
    let within : w.head < length w.turns = ground (arith, full) in
    elim (Bool-cases (turn_at w.head w.turns)) [
      | inl old ↦
          rw (write_turn, full, old)
            (ground (
              arith,
              full,
              turn_at-le-sum one_if w.head w.turns within,
              turn_at-le-sum none_if w.head w.turns within,
              ap one_if old,
              ap none_if old,
              next_head w.head size inside,
              sum-put_turn one_if w.head true w.turns within,
              sum-put_turn none_if w.head true w.turns within,
              length-put_turn w.head true w.turns,
              sums-length w.turns,
            ))
      | inr old ↦
          rw (write_turn, full, old)
            (ground (
              arith,
              full,
              turn_at-le-sum one_if w.head w.turns within,
              turn_at-le-sum none_if w.head w.turns within,
              ap one_if old,
              ap none_if old,
              next_head w.head size inside,
              sum-put_turn one_if w.head true w.turns within,
              sum-put_turn none_if w.head true w.turns within,
              length-put_turn w.head true w.turns,
              sums-length w.turns,
            ))
    ]
write_turn-overwrites size false w fits (successes, misses, short, inside, place) full =
    let within : w.head < length w.turns = ground (arith, full) in
    elim (Bool-cases (turn_at w.head w.turns)) [
      | inl old ↦
          rw (write_turn, full, old)
            (ground (
              arith,
              full,
              turn_at-le-sum one_if w.head w.turns within,
              turn_at-le-sum none_if w.head w.turns within,
              ap one_if old,
              ap none_if old,
              next_head w.head size inside,
              sum-put_turn one_if w.head false w.turns within,
              sum-put_turn none_if w.head false w.turns within,
              length-put_turn w.head false w.turns,
              sums-length w.turns,
            ))
      | inr old ↦
          rw (write_turn, full, old)
            (ground (
              arith,
              full,
              turn_at-le-sum one_if w.head w.turns within,
              turn_at-le-sum none_if w.head w.turns within,
              ap one_if old,
              ap none_if old,
              next_head w.head size inside,
              sum-put_turn one_if w.head false w.turns within,
              sum-put_turn none_if w.head false w.turns within,
              length-put_turn w.head false w.turns,
              sums-length w.turns,
            ))
    ]

-- Recording a turn keeps the counters of successes and misses equal to what the last turns are, at
-- most as many as the window is long, for a window of at least one and less than 2^64 turns.
pub record_turn-IsSound :
    (size : ℕ) (produced : Bool) (w : ValidatorTurnWindow)
    → 0 < size
    → size < u64_mod
    → IsSound size w
    → IsSound size (record_turn size produced w)
unfolding record_turn
record_turn-IsSound size produced w pos fits sound =
    let set : (size == 0) ≡ false = ground arith in
    rw (record_turn, set)
      (elim (Bool-cases (ltb (length w.turns) size)) [
        | inl room ↦ write_turn-appends size produced w fits sound room
        | inr full ↦ write_turn-overwrites size produced w fits sound full
      ])

-- The score of such a window is the share of the recorded turns that succeeded, in basis points,
-- and so at most 10000, if the window is not longer than 2^50 turns.
pub window_score-share :
    (size : ℕ) (w : ValidatorTurnWindow)
    → size < 2 ^ 50
    → 0 < length w.turns
    → IsSound size w
    → (window_score w ≡ sum_by one_if w.turns * 10000 / length w.turns) × (window_score w ≤ 10000)
unfolding window_score
window_score-share size w fits some_turns (successes, misses, short, inside, place) =
    let both = sums-length w.turns in
    let small : add64 w.successes w.misses ≡ length w.turns = omega arith in
    let product : mul64 w.successes 10000 ≡ w.successes * 10000 = omega arith in
    let share : window_score w ≡ sum_by one_if w.turns * 10000 / length w.turns =
      rw (small, product, successes) (ground arith) in
    (share, rw share (div-le_of_le-mul (length w.turns) (omega arith)))
