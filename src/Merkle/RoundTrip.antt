-- ===== src/Merkle/RoundTrip.antt =====
-- A proof that is built verifies, and what verifies is what the root commits to.
use falari.Prelude.{
  ℕ, zero, suc, ◌*◌, ◌<◌, String, ◌≡◌, refl, ◌∙◌, ◌≢◌, true, List, [], ◌∷◌, some, ok, length, arith,
  ltb, eq_refl, All, Bool-cases, inl, inr,
}
use falari.Merkle.{
  MerkleProof, take, drop, at, chunk_hashes, leaf_hashes, next_level, root_loop, fold_path,
  verify_merkle_proof, build_merkle_proof, data_merkle_root, merkle_root, leaf_count,
}
use falari.Merkle.Levels.{climb-fold, length-next_level}
use falari.Merkle.Leaves.{length-leaf_hashes, at-leaf_hashes, leaf_below, leaf_count-pos}
use falari.Dict.Laws.{str_eq-false}

module _ (hash_bytes : List ℕ → String) (hash_pair : String → String → String) where
  -- What a proof that is built for an index holds.
  build_lem :
      (bytes : List ℕ) (n i : ℕ)
      → 0 < n
      → i < leaf_count (length bytes) n
      → (proof : MerkleProof) × (build_merkle_proof hash_bytes hash_pair bytes n i ≡ ok proof)
        × (proof.leaf_hash ≡ at (leaf_hashes hash_bytes bytes n) i)
        × (fold_path hash_pair proof.leaf_hash i proof.path ≡ proof.root)
        × (root_loop hash_pair
              (length (leaf_hashes hash_bytes bytes n))
              (leaf_hashes hash_bytes bytes n)
            ≡ some proof.root)
  unfolding build_merkle_proof
  build_lem bytes n i pos below =
      let leaves = leaf_hashes hash_bytes bytes n in
      let inside : i < length leaves = omega (arith, length-leaf_hashes hash_bytes bytes n pos) in
      let (path, root, built, folded, reached) =
        climb-fold hash_pair (length leaves) leaves i (omega arith) inside in
      (
        record { root = root; leaf_hash = at leaves i; leaf_index = i; leaf_size = n; path = path },
        ground (arith, built, inside, pos),
        refl,
        folded,
        reached,
      )

  root_of_first :
      (bytes : List ℕ) (n : ℕ) (proof first : MerkleProof)
      → build_merkle_proof hash_bytes hash_pair bytes n 0 ≡ ok first
      → proof.root ≡ first.root
      → proof.root ≡ data_merkle_root hash_bytes hash_pair bytes n
  unfolding data_merkle_root
  root_of_first bytes n proof first built same = rw (built, data_merkle_root) same

  merkle_root_loop :
      (leaves : List String) (root : String)
      → root_loop hash_pair (length leaves) leaves ≡ some root
      → merkle_root hash_bytes hash_pair leaves ≡ some root
  unfolding merkle_root root_loop
  merkle_root_loop [] root h = absurd (cc)
  merkle_root_loop (x ∷ xs) root h = h

  -- The root that DataMerkleRoot takes from a proof is the one that MerkleRoot computes from the
  -- hashes of the leaves, for every shard and leaf size, also for an empty shard.
  pub data_merkle_root-eq-merkle_root :
      (bytes : List ℕ) (n : ℕ)
      → 0 < n
      → merkle_root hash_bytes hash_pair (leaf_hashes hash_bytes bytes n)
        ≡ some (data_merkle_root hash_bytes hash_pair bytes n)
  data_merkle_root-eq-merkle_root bytes n pos =
      let (proof, built, _, _, reached) =
        build_lem bytes n 0 pos (leaf_count-pos (length bytes) n) in
      rw (← (root_of_first bytes n proof proof built refl))
        (merkle_root_loop (leaf_hashes hash_bytes bytes n) proof.root reached)

module _ (hash_bytes : List ℕ → String) (hash_pair : String → String → String)
    (bytes-ne : (xs : List ℕ) → hash_bytes xs ≢ "")
    (pair-ne : (a b : String) → hash_pair a b ≢ "") where
  -- No hash that the tree is built of is empty.
  chunk_hashes-ne :
      (fuel n : ℕ) (xs : List ℕ) → All (λ h. h ≢ "") (chunk_hashes hash_bytes fuel n xs)
  unfolding chunk_hashes
  chunk_hashes-ne zero n xs = tt
  chunk_hashes-ne (suc fuel) n [] = tt
  chunk_hashes-ne (suc fuel) n (x ∷ xs) =
      (bytes-ne (take n (x ∷ xs)), chunk_hashes-ne fuel n (drop n (x ∷ xs)))

  leaf_hashes-ne : (bytes : List ℕ) (n : ℕ) → All (λ h. h ≢ "") (leaf_hashes hash_bytes bytes n)
  unfolding leaf_hashes
  leaf_hashes-ne [] n = (bytes-ne [], tt)
  leaf_hashes-ne (x ∷ xs) n = chunk_hashes-ne (length (x ∷ xs)) n (x ∷ xs)

  next_level-ne : (level : List String) → All (λ h. h ≢ "") (next_level hash_pair level)
  unfolding next_level
  next_level-ne [] = tt
  next_level-ne (a ∷ []) = (pair-ne a a, tt)
  next_level-ne (a ∷ b ∷ rest) = (pair-ne a b, next_level-ne rest)

  at-ne :
      (level : List String) (i : ℕ) → All (λ h. h ≢ "") level → i < length level → at level i ≢ ""
  at-ne [] i ne h = absurd (omega arith)
  at-ne (x ∷ xs) zero ne h = ne.0
  at-ne (x ∷ xs) (suc i) ne h = at-ne xs i ne.1 (omega arith)

  root_loop-ne :
      (fuel : ℕ) (level : List String) (root : String)
      → 0 < length level
      → All (λ h. h ≢ "") level
      → root_loop hash_pair fuel level ≡ some root
      → root ≢ ""
  unfolding root_loop
  root_loop-ne zero level root pos ne found = absurd (cc)
  root_loop-ne (suc fuel) level root pos ne found = elim (Bool-cases (ltb 1 (length level))) [
    | inl more ↦
        root_loop-ne fuel (next_level hash_pair level) root
          (ground (arith, length-next_level hash_pair level)) (next_level-ne level)
          (rw (more, root_loop) at found)
    | inr one ↦
        let first : at level 0 ≡ root = cc (rw (one, root_loop) at found) in
        rw (← first) (at-ne level 0 ne pos)
  ]

  verify_lem :
      (root leaf : String) (i : ℕ) (path : List String)
      → root ≢ ""
      → leaf ≢ ""
      → fold_path hash_pair leaf i path ≡ root
      → verify_merkle_proof hash_pair root leaf i path ≡ true
  unfolding verify_merkle_proof
  verify_lem root leaf i path root_ne leaf_ne folded =
      rw (str_eq-false root "" root_ne, str_eq-false leaf "" leaf_ne, folded, eq_refl root)

  -- For every leaf of a shard that is not empty, a proof is built; its leaf is the hash of that
  -- leaf's own bytes, its root is the shard's root, and the chain's check accepts it.
  pub built_proof_verifies :
      (bytes : List ℕ) (n i : ℕ)
      → 0 < n
      → 0 < length bytes
      → i < leaf_count (length bytes) n
      → (proof : MerkleProof) × (build_merkle_proof hash_bytes hash_pair bytes n i ≡ ok proof)
        × (proof.leaf_hash ≡ hash_bytes (take n (drop (i * n) bytes)))
        × (proof.root ≡ data_merkle_root hash_bytes hash_pair bytes n)
        × (verify_merkle_proof hash_pair proof.root proof.leaf_hash i proof.path ≡ true)
  built_proof_verifies bytes n i pos nonempty below =
      let (proof, built, leaf, folded, reached) =
        build_lem hash_bytes hash_pair bytes n i pos below in
      let (first, built0, _, _, reached0) =
        build_lem hash_bytes hash_pair bytes n 0 pos (omega arith) in
      let leaves = leaf_hashes hash_bytes bytes n in
      let many : length leaves ≡ leaf_count (length bytes) n =
        length-leaf_hashes hash_bytes bytes n pos in
      let ne : All (λ h. h ≢ "") leaves = leaf_hashes-ne bytes n in
      (
        proof,
        built,
        leaf
            ∙ at-leaf_hashes hash_bytes bytes n i pos
                (leaf_below (length bytes) n i nonempty pos below),
        root_of_first hash_bytes hash_pair bytes n proof first built0 (cc),
        verify_lem proof.root proof.leaf_hash i proof.path
            (root_loop-ne (length leaves) leaves proof.root (omega arith) ne reached)
            (rw leaf (at-ne leaves i ne (omega arith))) folded,
      )

  built_index :
      (bytes : List ℕ) (n i : ℕ) (proof : MerkleProof)
      → build_merkle_proof hash_bytes hash_pair bytes n i ≡ ok proof
      → (0 < n) × (i < length (leaf_hashes hash_bytes bytes n))
  unfolding build_merkle_proof
  built_index bytes n i proof h = ground arith

  -- Whatever proof is built verifies.
  pub built-verifies :
      (bytes : List ℕ) (n i : ℕ) (proof : MerkleProof)
      → build_merkle_proof hash_bytes hash_pair bytes n i ≡ ok proof
      → verify_merkle_proof hash_pair proof.root proof.leaf_hash i proof.path ≡ true
  built-verifies bytes n i proof h =
      let (pos, inside) = built_index bytes n i proof h in
      let many : length (leaf_hashes hash_bytes bytes n) ≡ leaf_count (length bytes) n =
        length-leaf_hashes hash_bytes bytes n pos in
      let (other, built, leaf, folded, reached) =
        build_lem hash_bytes hash_pair bytes n i pos (omega arith) in
      let same : other ≡ proof = cc in
      let leaves = leaf_hashes hash_bytes bytes n in
      let ne : All (λ h. h ≢ "") leaves = leaf_hashes-ne bytes n in
      rw (← same) (
        verify_lem other.root other.leaf_hash i other.path
          (root_loop-ne (length leaves) leaves other.root (omega arith) ne reached)
          (rw leaf (at-ne leaves i ne inside)) folded)
