-- ===== src/Merkle/Leaves.antt =====
-- The leaves of a shard: how many there are, and what each one hashes.
use falari.Prelude.{
  ℕ, zero, suc, ◌+◌, ◌-◌, ◌*◌, ◌/◌, ◌≤◌, ◌<◌, String, ◌≡◌, refl, sym, ap, ◌∙◌, List, [], ◌∷◌,
  length, arith,
}
use native.Mathlib.Decide.{dec_lt}
use native.Mathlib.Nat.{div-eq-sub-div, div-eq_of_lt, le-div_iff_mul-le}
use falari.Merkle.{take, drop, at, chunk_hashes, leaf_hashes, leaf_count}

pub length-drop : (n : ℕ) (xs : List ℕ) → length (drop n xs) ≡ length xs - n
length-drop zero xs = omega arith
length-drop (suc n) [] = omega arith
length-drop (suc n) (x ∷ xs) = omega (arith, length-drop n xs)

drop_nil : (n : ℕ) → drop n [] ≡ []
drop_nil zero = refl
drop_nil (suc n) = refl

-- What is left after one leaf, rounded up to leaves.
leaves_left : (len n : ℕ) → (len - n + n) / suc n + 1 ≡ (suc len + n) / suc n
leaves_left len n =
    let fewer : (suc len + n) / suc n ≡ (suc len + n - suc n) / suc n + 1 =
      div-eq-sub-div (omega arith) (omega arith) in
    let rest : suc len + n - suc n ≡ len = omega arith in
    rw (fewer, rest)
      (elim (dec_lt len n) [
        | no more ↦ let e : len - n + n ≡ len = omega arith in rw e
        | yes less ↦
            let e : len - n + n ≡ n = omega arith in
            rw (
              e,
              div-eq_of_lt {n = n} {m = suc n} (omega arith),
              div-eq_of_lt {n = len} {m = suc n} (omega arith),
            )
      ])

drop-drop : (m n : ℕ) (xs : List ℕ) → drop n (drop m xs) ≡ drop (m + n) xs
drop-drop zero n xs = let e : 0 + n ≡ n = omega arith in rw e
drop-drop (suc m) n [] = drop_nil n ∙ sym (drop_nil (suc m + n))
drop-drop (suc m) n (x ∷ xs) =
    let e : suc m + n ≡ suc (m + n) = omega arith in rw e (drop-drop m n xs)

leaf_count_pos : (k n : ℕ) → leaf_count (suc k) (suc n) ≡ (suc k + n) / suc n
unfolding leaf_count
leaf_count_pos k n = let e : suc k + suc n - 1 ≡ suc k + n = omega arith in rw e (ground arith)

pub leaf_count-pos : (len n : ℕ) → 0 < leaf_count len n
unfolding leaf_count
leaf_count-pos zero n = ground arith
leaf_count-pos (suc k) zero = ground arith
leaf_count-pos (suc k) (suc n) =
    let one : 1 ≤ (suc k + n) / suc n =
      (le-div_iff_mul-le {k = suc n} {x = 1} {y = suc k + n} (omega arith)).1 (omega arith) in
    omega (arith, leaf_count_pos k n)

pub leaf_below : (len n i : ℕ) → 0 < len → 0 < n → i < leaf_count len n → i * n < len
leaf_below len zero i nonempty pos h = absurd (omega arith)
leaf_below zero (suc n) i nonempty pos h = absurd (omega arith)
leaf_below (suc k) (suc n) i nonempty pos h =
    let below : suc i ≤ (suc k + n) / suc n = omega (arith, leaf_count_pos k n) in
    let cut : suc i * suc n ≤ suc k + n = (le-div_iff_mul-le {y = suc k + n} pos).0 below in
    grind arith

module _ (hash_bytes : List ℕ → String) where
  -- Each round takes a leaf, so there are as many as the size divided by the leaf size, rounded up.
  length-chunk_hashes :
      (fuel n : ℕ) (xs : List ℕ)
      → length xs ≤ fuel
      → length (chunk_hashes hash_bytes fuel (suc n) xs) ≡ (length xs + n) / suc n
  unfolding chunk_hashes
  length-chunk_hashes zero n [] h = sym (div-eq_of_lt (omega arith))
  length-chunk_hashes zero n (x ∷ xs) h = absurd (omega arith)
  length-chunk_hashes (suc fuel) n [] h = sym (div-eq_of_lt (omega arith))
  length-chunk_hashes (suc fuel) n (x ∷ xs) h = omega (
    arith,
    length-chunk_hashes fuel n (drop n xs) (omega (arith, length-drop n xs)),
    ap (λ (t : ℕ). (t + n) / suc n) (length-drop n xs),
    leaves_left (length xs) n,
  )

  -- The leaf at an index hashes the bytes from there on, up to the leaf size.
  at-chunk_hashes :
      (fuel n i : ℕ) (xs : List ℕ)
      → length xs ≤ fuel
      → i * suc n < length xs
      → at (chunk_hashes hash_bytes fuel (suc n) xs) i
        ≡ hash_bytes (take (suc n) (drop (i * suc n) xs))
  unfolding chunk_hashes
  at-chunk_hashes fuel n i [] h below = absurd (omega arith)
  at-chunk_hashes zero n i (x ∷ xs) h below = absurd (omega arith)
  at-chunk_hashes (suc fuel) n zero (x ∷ xs) h below = let e : 0 * suc n ≡ 0 = omega arith in rw e
  at-chunk_hashes (suc fuel) n (suc i) (x ∷ xs) h below =
      let e : suc i * suc n ≡ suc (n + i * suc n) = grind arith in
      rw (e, ← (drop-drop n (i * suc n) xs))
        (at-chunk_hashes fuel n i (drop n xs) (omega (arith, length-drop n xs))
          (omega (arith, length-drop n xs, e)))

  -- The chain's leaf count is the number of leaves that a prover hashes.
  pub length-leaf_hashes :
      (bytes : List ℕ) (leaf_size : ℕ)
      → 0 < leaf_size
      → length (leaf_hashes hash_bytes bytes leaf_size) ≡ leaf_count (length bytes) leaf_size
  unfolding leaf_hashes leaf_count
  length-leaf_hashes bytes zero h = absurd (omega arith)
  length-leaf_hashes [] (suc n) h = ground arith
  length-leaf_hashes (x ∷ xs) (suc n) h =
      length-chunk_hashes (suc (length xs)) n (x ∷ xs) (omega arith)
      ∙ sym (leaf_count_pos (length xs) n)

  -- Each leaf of a shard that is not empty hashes its own bytes, also the last, shorter one.
  pub at-leaf_hashes :
      (bytes : List ℕ) (leaf_size i : ℕ)
      → 0 < leaf_size
      → i * leaf_size < length bytes
      → at (leaf_hashes hash_bytes bytes leaf_size) i
        ≡ hash_bytes (take leaf_size (drop (i * leaf_size) bytes))
  unfolding leaf_hashes
  at-leaf_hashes bytes zero i h below = absurd (omega arith)
  at-leaf_hashes [] (suc n) i h below = absurd (omega arith)
  at-leaf_hashes (x ∷ xs) (suc n) i h below =
      at-chunk_hashes (suc (length xs)) n i (x ∷ xs) (omega arith) below
