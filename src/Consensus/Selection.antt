-- ===== src/Consensus/Selection.antt =====
-- Which validator proposes a block.
use falari.Prelude.{
  ℕ, ◌+◌, ◌%◌, ◌≤◌, ◌<◌, ◌≡◌, List, [], ◌∷◌, ◌++◌, sum_by, sum_by-append, String, some, arith,
}
use falari.Arith.{u64_mod}
use falari.Arith.Bounds.{saturating_add_exact}
use falari.Consensus.{total_power, pick, select_from}

abbrev pub power_sum : List (String × ℕ) → ℕ
power_sum ps = sum_by (λ (e : String × ℕ). e.1) ps

total_power-sum :
    (sum : ℕ) (ps : List (String × ℕ))
    → sum + power_sum ps < u64_mod
    → total_power sum ps ≡ sum + power_sum ps
unfolding total_power
total_power-sum sum [] fits = omega arith
total_power-sum sum ((a, p) ∷ rest) fits =
    let exact = saturating_add_exact sum p (omega arith) in
    rw exact (omega (arith, total_power-sum (sum + p) rest (omega arith)))

-- The entry into whose stretch of the powers the threshold falls is the one picked.
pick-owner :
    (t c : ℕ) (last a : String) (p : ℕ) (pre post : List (String × ℕ))
    → c + power_sum (pre ++ (a, p) ∷ post) < u64_mod
    → c + power_sum pre ≤ t
    → t < c + power_sum pre + p
    → pick t c last (pre ++ (a, p) ∷ post) ≡ a
unfolding pick
pick-owner t c last a p [] post fits from until =
    let exact = saturating_add_exact c p (omega arith) in ground (arith, exact)
pick-owner t c last a p ((b, q) ∷ rest) post fits from until =
    let exact = saturating_add_exact c q (omega arith) in
    ground (arith, exact, pick-owner t (c + q) b a p rest post)

-- Proposers are drawn in proportion to their power: the values of the seed, modulo the total power,
-- are shared out in stretches, one for each validator in order and as long as its power is, and the
-- validator whose stretch the seed falls into proposes. It holds where the total power is a uint64.
pub select_from_share :
    (seed : ℕ) (a : String) (p : ℕ) (pre post : List (String × ℕ))
    → let ps = pre ++ (a, p) ∷ post in
      power_sum ps < u64_mod
      → power_sum pre ≤ seed % power_sum ps
      → seed % power_sum ps < power_sum pre + p
      → select_from seed ps ≡ some a
unfolding select_from
select_from_share seed a p pre post fits from until =
    let ps = pre ++ (a, p) ∷ post in
    let exact = total_power-sum 0 ps (omega arith) in
    let whole = sum_by-append (λ (e : String × ℕ). e.1) pre ((a, p) ∷ post) in
    ground (
      arith,
      exact,
      whole,
      pick-owner (seed % power_sum ps) 0 "" a p pre post (omega arith) (omega arith) (omega arith),
    )
