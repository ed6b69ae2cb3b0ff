-- ===== src/Merkle/Binding.antt =====
-- Two leaves that verify at one place, by paths of one length, give a collision of the pair hash.
use falari.Prelude.{
  ℕ, ◌/◌, ◌%◌, String, ◌≡◌, sym, ◌≢◌, ◌⊎◌, inl, inr, true, List, [], ◌∷◌, str_eq, eq_iff, ◌==◌,
  length, Bool-cases, ◌∙◌, arith,
}
use falari.Merkle.{fold_path, verify_merkle_proof}
use falari.Dict.Laws.{str_ne-of-false}

module _ (hash_pair : String → String → String) (Digest : String → Type 0)
    (pair-Digest : (a b : String) → Digest (hash_pair a b)) where
  -- Two different digests that hash to the same text, each joined with some text on the same side.
  abbrev pub Collision : Type 0
  Collision =
      (x : String) × (y : String) × (s : String) × (t : String) × Digest x
      × Digest y
      × (x ≢ y)
      × ((hash_pair x s ≡ hash_pair y t) ⊎ (hash_pair s x ≡ hash_pair t y))

  fold_path-collides :
      (path path' : List String) (c c' : String) (i : ℕ)
      → length path ≡ length path'
      → Digest c
      → Digest c'
      → c ≢ c'
      → fold_path hash_pair c i path ≡ fold_path hash_pair c' i path'
      → Collision
  unfolding fold_path
  fold_path-collides [] [] c c' i len d d' ne same = absurd (ne same)
  fold_path-collides [] (s ∷ p) c c' i len d d' ne same = absurd (omega arith)
  fold_path-collides (s ∷ p) [] c c' i len d d' ne same = absurd (omega arith)
  fold_path-collides (s ∷ p) (t ∷ q) c c' i len d d' ne same = elim (Bool-cases (i % 2 == 0)) [
    | inl even ↦ elim (Bool-cases (str_eq (hash_pair c s) (hash_pair c' t))) [
      | inl e ↦ (c, c', s, t, d, d', ne, inl ((eq_iff _ _).0 e))
      | inr e ↦
          fold_path-collides p q (hash_pair c s) (hash_pair c' t) (i / 2) (omega arith)
            (pair-Digest c s) (pair-Digest c' t) (str_ne-of-false _ _ e) (rw even at same)
    ]
    | inr odd ↦ elim (Bool-cases (str_eq (hash_pair s c) (hash_pair t c'))) [
      | inl e ↦ (c, c', s, t, d, d', ne, inr ((eq_iff _ _).0 e))
      | inr e ↦
          fold_path-collides p q (hash_pair s c) (hash_pair t c') (i / 2) (omega arith)
            (pair-Digest s c) (pair-Digest t c') (str_ne-of-false _ _ e) (rw odd at same)
    ]
  ]

  verified_fold :
      (root leaf : String) (i : ℕ) (path : List String)
      → verify_merkle_proof hash_pair root leaf i path ≡ true
      → fold_path hash_pair leaf i path ≡ root
  unfolding verify_merkle_proof
  verified_fold root leaf i path h = ground (arith, eq_iff (fold_path hash_pair leaf i path) root)

  -- Two different leaf digests that verify at one index of one root, by paths of the same length,
  -- show a collision of the pair hash between two digests. The check does not compare the lengths.
  pub two_leaves_collide :
      (root leaf leaf' : String) (i : ℕ) (path path' : List String)
      → length path ≡ length path'
      → Digest leaf
      → Digest leaf'
      → leaf ≢ leaf'
      → verify_merkle_proof hash_pair root leaf i path ≡ true
      → verify_merkle_proof hash_pair root leaf' i path' ≡ true
      → Collision
  two_leaves_collide root leaf leaf' i path path' len d d' ne one two =
      fold_path-collides path path' leaf leaf' i len d d' ne
        (verified_fold root leaf i path one ∙ sym (verified_fold root leaf' i path' two))
