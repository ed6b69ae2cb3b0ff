-- ===== src/Merkle/Levels.antt =====
-- The levels of a Merkle tree: the nodes of the next level, and the loops that climb.
use falari.Prelude.{
  ℕ, zero, suc, ◌+◌, ◌/◌, ◌%◌, ◌≤◌, ◌<◌, String, ◌≡◌, List, [], ◌∷◌, some, ◌==◌, if◌then◌else◌,
  length, lt→ltb, le→ltb_false, ◌∙◌, arith,
}
use native.Mathlib.Decide.{dec_lt}
use falari.Merkle.{at, sibling, next_level, climb, fold_path, root_loop}

-- Two nodes in front move an index by two.
sibling-shift :
    (a b : String) (rest : List String) (i : ℕ)
    → sibling (suc (suc i)) (a ∷ b ∷ rest) ≡ suc (suc (sibling i rest))
unfolding sibling
sibling-shift a b rest i = ground arith

module _ (hash_pair : String → String → String) where
  pub length-next_level :
      (level : List String) → length (next_level hash_pair level) ≡ (length level + 1) / 2
  unfolding next_level
  length-next_level [] = omega arith
  length-next_level (a ∷ []) = omega arith
  length-next_level (a ∷ b ∷ rest) = omega (arith, length-next_level rest)

  -- A node's parent is the hash of the node and its sibling, in the order of their indices.
  pub at-next_level :
      (level : List String) (i : ℕ)
      → i < length level
      → at (next_level hash_pair level) (i / 2) ≡ (
          if i % 2 == 0
          then hash_pair (at level i) (at level (sibling i level))
          else hash_pair (at level (sibling i level)) (at level i))
  unfolding next_level
  at-next_level [] i h = absurd (omega arith)
  at-next_level (a ∷ []) zero h = unfold sibling in ground arith
  at-next_level (a ∷ []) (suc i) h = absurd (omega arith)
  at-next_level (a ∷ b ∷ rest) zero h = unfold sibling in ground arith
  at-next_level (a ∷ b ∷ rest) (suc zero) h = unfold sibling in ground arith
  at-next_level (a ∷ b ∷ rest) (suc (suc i)) h =
      let half : suc (suc i) / 2 ≡ suc (i / 2) = omega arith in
      let same : suc (suc i) % 2 ≡ i % 2 = omega arith in
      rw (half, same, sibling-shift a b rest i) (at-next_level rest i (omega arith))

  fold_path_step :
      (level path : List String) (i : ℕ)
      → i < length level
      → fold_path hash_pair (at level i) i (at level (sibling i level) ∷ path)
        ≡ fold_path hash_pair (at (next_level hash_pair level) (i / 2)) (i / 2) path
  unfolding fold_path
  fold_path_step level path i h = rw (at-next_level level i h)

  climb_step :
      (fuel i : ℕ) (level path : List String) (root : String)
      → 1 < length level
      → climb hash_pair fuel (i / 2) (next_level hash_pair level) ≡ some (path, root)
      → climb hash_pair (suc fuel) i level ≡ some (at level (sibling i level) ∷ path, root)
  unfolding climb
  climb_step fuel i level path root more built = rw (lt→ltb _ _ more, built, climb)

  climb_last :
      (fuel : ℕ) (level : List String)
      → length level ≤ 1
      → climb hash_pair (suc fuel) 0 level ≡ some ([], at level 0)
  unfolding climb
  climb_last fuel level one = rw (le→ltb_false _ _ one, climb)

  root_step :
      (fuel : ℕ) (level : List String)
      → 1 < length level
      → root_loop hash_pair (suc fuel) level ≡ root_loop hash_pair fuel (next_level hash_pair level)
  unfolding root_loop
  root_step fuel level more = rw (lt→ltb _ _ more, root_loop)

  root_last :
      (fuel : ℕ) (level : List String)
      → length level ≤ 1
      → root_loop hash_pair (suc fuel) level ≡ some (at level 0)
  unfolding root_loop
  root_last fuel level one = rw (le→ltb_false _ _ one, root_loop)

  -- Climbing from a node of a level ends at the root that the plain loop reaches, and folding the
  -- path that was met gives that root. The fuel is enough where it is at least the number of nodes.
  pub climb-fold :
      (fuel : ℕ) (level : List String) (i : ℕ)
      → length level ≤ fuel
      → i < length level
      → (path : List String) × (root : String) × (climb hash_pair fuel i level ≡ some (path, root))
        × (fold_path hash_pair (at level i) i path ≡ root)
        × (root_loop hash_pair fuel level ≡ some root)
  unfolding fold_path
  climb-fold zero level i enough h = absurd (omega arith)
  climb-fold (suc fuel) level i enough h = elim (dec_lt 1 (length level)) [
    | yes more ↦
        let (path, root, built, folded, reached) =
          climb-fold fuel (next_level hash_pair level) (i / 2)
            (omega (arith, length-next_level level)) (omega (arith, length-next_level level)) in
        (
          at level (sibling i level) ∷ path,
          root,
          climb_step fuel i level path root more built,
          fold_path_step level path i h ∙ folded,
          root_step fuel level more ∙ reached,
        )
    | no one ↦
        let first : i ≡ 0 = omega arith in
        (
          [],
          at level 0,
          rw first (climb_last fuel level (omega arith)),
          rw first,
          root_last fuel level (omega arith),
        )
  ]
