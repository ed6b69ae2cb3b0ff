-- ===== src/Merkle/Commitment.antt =====
-- What the root of a shard commits to.
use falari.Prelude.{
  ℕ, zero, suc, ◌*◌, ◌/◌, ◌<◌, String, ◌≡◌, ◌≢◌, ◌⊎◌, inl, inr, true, List, length, some, ok,
  Option-cases, ltb, str_eq, eq_iff, ap, sym, ◌∙◌, Bool-cases, arith,
}
use falari.Dict.Laws.{str_ne-of-false}
use falari.Merkle.{
  MerkleProof, take, drop, leaf_hashes, next_level, climb, build_merkle_proof, data_merkle_root,
  leaf_count, verify_merkle_proof,
}
use falari.Merkle.Levels.{length-next_level}
use falari.Merkle.Leaves.{length-leaf_hashes}
use falari.Merkle.Binding.{Collision, two_leaves_collide}
use falari.Merkle.RoundTrip.{built_proof_verifies}

module _ (hash_pair : String → String → String) where
  -- How long the path is depends on the number of nodes only.
  climb-length :
      (fuel i : ℕ) (level level' path path' : List String) (root root' : String)
      → length level ≡ length level'
      → climb hash_pair fuel i level ≡ some (path, root)
      → climb hash_pair fuel i level' ≡ some (path', root')
      → length path ≡ length path'
  unfolding climb
  climb-length zero i level level' path path' root root' len e e' = absurd (cc)
  climb-length (suc fuel) i level level' path path' root root' len e e' =
      elim (Bool-cases (ltb 1 (length level))) [
        | inr last ↦ ground (arith, len, last)
        | inl more ↦
            let up = next_level hash_pair level in
            let up' = next_level hash_pair level' in
            elim (Option-cases (climb hash_pair fuel (i / 2) up)) [
              | inl k ↦ absurd (ground (arith, more, k))
              | inr ((p, r), k) ↦ elim (Option-cases (climb hash_pair fuel (i / 2) up')) [
                | inl k' ↦ absurd (ground (arith, len, more, k'))
                | inr ((p', r'), k') ↦
                    let same =
                      climb-length fuel (i / 2) up up' p p' r r'
                        (omega (
                          arith,
                          len,
                          length-next_level hash_pair level,
                          length-next_level hash_pair level',
                        ))
                        k k' in
                    ground (arith, len, more, k, k', same)
              ]
            ]
      ]

module _ (hash_bytes : List ℕ → String) (hash_pair : String → String → String)
    (bytes-ne : (bytes : List ℕ) → hash_bytes bytes ≢ "")
    (pair-ne : (a b : String) → hash_pair a b ≢ "") where
  built_climb :
      (bytes : List ℕ) (n i : ℕ) (proof : MerkleProof)
      → build_merkle_proof hash_bytes hash_pair bytes n i ≡ ok proof
      → let leaves = leaf_hashes hash_bytes bytes n in
        climb hash_pair (length leaves) i leaves ≡ some (proof.path, proof.root)
  unfolding build_merkle_proof
  built_climb bytes n i proof h =
      let leaves = leaf_hashes hash_bytes bytes n in
      elim (Option-cases (climb hash_pair (length leaves) i leaves)) [
        | inl k ↦ absurd (ground (arith, k))
        | inr ((p, r), k) ↦ ground (arith, k)
      ]

  -- A root commits to the data: if two shards of the same length have the same root and their leaves
  -- at an index differ, then these are two different leaves with one hash, or the pair hash takes
  -- two different digests, each joined with some text on the same side, to one. `Digest` is a property
  -- that all texts have that the two hashes give, and no hash is the empty text.
  pub data_merkle_root-commits :
      (Digest : String → Type 0) (bytes-Digest : (xs : List ℕ) → Digest (hash_bytes xs))
      (pair-Digest : (a b : String) → Digest (hash_pair a b)) (xs ys : List ℕ) (n i : ℕ)
      → 0 < n
      → 0 < length xs
      → length ys ≡ length xs
      → i < leaf_count (length xs) n
      → data_merkle_root hash_bytes hash_pair xs n ≡ data_merkle_root hash_bytes hash_pair ys n
      → take n (drop (i * n) xs) ≢ take n (drop (i * n) ys)
      → ((take n (drop (i * n) xs) ≢ take n (drop (i * n) ys))
          × (hash_bytes (take n (drop (i * n) xs)) ≡ hash_bytes (take n (drop (i * n) ys))))
        ⊎ Collision hash_pair Digest pair-Digest
  data_merkle_root-commits Digest bytes-Digest pair-Digest xs ys n i pos nonempty len below same
        differ =
      let (p, built, leaf, root, checks) =
        built_proof_verifies hash_bytes hash_pair bytes-ne pair-ne xs n i pos nonempty below in
      let (q, built', leaf', root', checks') =
        built_proof_verifies hash_bytes hash_pair bytes-ne pair-ne ys n i pos (omega arith)
          (rw len below) in
      let leaves : length (leaf_hashes hash_bytes xs n) ≡ length (leaf_hashes hash_bytes ys n) =
        length-leaf_hashes hash_bytes xs n pos
        ∙ ap (λ (k : ℕ). leaf_count k n) (sym len)
        ∙ sym (length-leaf_hashes hash_bytes ys n pos) in
      let paths : length p.path ≡ length q.path =
        climb-length hash_pair (length (leaf_hashes hash_bytes xs n)) i
          (leaf_hashes hash_bytes xs n) (leaf_hashes hash_bytes ys n) p.path q.path p.root q.root
          leaves (built_climb xs n i p built) (rw leaves (built_climb ys n i q built')) in
      let c = take n (drop (i * n) xs) in
      let d = take n (drop (i * n) ys) in
      let one : p.root ≡ q.root = root ∙ same ∙ sym root' in
      let first : verify_merkle_proof hash_pair p.root (hash_bytes c) i p.path ≡ true =
        rw leaf at checks in
      let second : verify_merkle_proof hash_pair p.root (hash_bytes d) i q.path ≡ true =
        rw one (rw leaf' at checks') in
      elim (Bool-cases (str_eq (hash_bytes c) (hash_bytes d))) [
        | inl equal ↦ inl (differ, (eq_iff _ _).0 equal)
        | inr other ↦ inr (
            two_leaves_collide hash_pair Digest pair-Digest p.root (hash_bytes c) (hash_bytes d) i
              p.path q.path paths (bytes-Digest c) (bytes-Digest d) (str_ne-of-false _ _ other)
              first second)
      ]
