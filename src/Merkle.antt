-- ===== src/Merkle.antt =====
-- Merkle proofs over the leaves of a shard (internal/crypto/merkle.go, hash.go), which storage nodes build
-- and the chain verifies. The two hashes, SHA-256 of bytes and of two joined texts, are arguments.
-- Bytes are numbers; a leaf index is a natural number, so the tests for a negative one are left out.
pub mod Levels
pub mod Leaves
pub mod Binding
pub mod RoundTrip
pub mod Commitment
use falari.Prelude.{
  ℕ, zero, suc, ◌+◌, ◌-◌, ◌/◌, ◌%◌, String, Bool, true, false, ◌||◌, List, [], ◌∷◌, Option, none,
  some, Result, ok, err, fail_if, ◌>>=◌, ◌>>◌, str_eq, ltb, leb, ◌==◌, if◌then◌else◌, length,
}

pub record MerkleProof : Type 0 where
  pub root : String
  pub leaf_hash : String
  pub leaf_index : ℕ
  pub leaf_size : ℕ
  pub path : List String

pub data MerkleError : Type 0 where
  bad_leaf_size index_out_of_range : MerkleError
  out_of_fuel : MerkleError  -- not an error of the source: the loop's fuel, which suffices

-- data[:n] and data[n:], cut at the end of the data
abbrev pub take : ℕ → List ℕ → List ℕ
take zero xs = []
take (suc n) [] = []
take (suc n) (x ∷ xs) = x ∷ take n xs

abbrev pub drop : ℕ → List ℕ → List ℕ
drop zero xs = xs
drop (suc n) [] = []
drop (suc n) (x ∷ xs) = drop n xs

-- level[i], for an index in range
abbrev pub at : List String → ℕ → String
at [] i = ""
at (x ∷ xs) zero = x
at (x ∷ xs) (suc i) = at xs i

-- index ^ 1
abbrev pub flip_bit : ℕ → ℕ
flip_bit index = if index % 2 == 0 then index + 1 else index - 1

-- The sibling's index; a last node without one is its own.
unfoldable pub sibling : ℕ → List String → ℕ
sibling index level = let i = flip_bit index in if leb (length level) i then index else i

module _ (hash_bytes : List ℕ → String) where
  -- The loop of leafHashes over the data that is left; each round takes at least one byte.
  unfoldable pub chunk_hashes : ℕ → ℕ → List ℕ → List String
  chunk_hashes zero leaf_size xs = []
  chunk_hashes (suc fuel) leaf_size [] = []
  chunk_hashes (suc fuel) leaf_size (x ∷ xs) =
      hash_bytes (take leaf_size (x ∷ xs)) ∷ chunk_hashes fuel leaf_size (drop leaf_size (x ∷ xs))

  unfoldable pub leaf_hashes : List ℕ → ℕ → List String
  leaf_hashes [] leaf_size = hash_bytes [] ∷ []
  leaf_hashes (x ∷ xs) leaf_size = chunk_hashes (length (x ∷ xs)) leaf_size (x ∷ xs)

module _ (hash_pair : String → String → String) where
  -- The loop that builds the next level.
  unfoldable pub next_level : List String → List String
  next_level [] = []
  next_level (left ∷ []) = hash_pair left left ∷ []
  next_level (left ∷ right ∷ rest) = hash_pair left right ∷ next_level rest

  -- The loop over the levels, up to the root: the path, and the root.
  unfoldable pub climb : ℕ → ℕ → List String → Option (List String × String)
  climb zero index level = none
  climb (suc fuel) index level = elim (ltb 1 (length level)) [
    | false ↦ some ([], at level 0)
    | true ↦ elim (climb fuel (index / 2) (next_level level)) [
      | none ↦ none
      | some (path, root) ↦ some (at level (sibling index level) ∷ path, root)
    ]
  ]

  -- The loop of MerkleRoot.
  unfoldable pub root_loop : ℕ → List String → Option String
  root_loop zero level = none
  root_loop (suc fuel) level = elim (ltb 1 (length level)) [
    | false ↦ some (at level 0)
    | true ↦ root_loop fuel (next_level level)
  ]

  -- The loop of VerifyMerkleProof.
  unfoldable pub fold_path : String → ℕ → List String → String
  fold_path computed index [] = computed
  fold_path computed index (s ∷ path) =
      fold_path (if index % 2 == 0 then hash_pair computed s else hash_pair s computed) (index / 2)
        path

  unfoldable pub verify_merkle_proof : String → String → ℕ → List String → Bool
  verify_merkle_proof root leaf_hash leaf_index path =
      if str_eq root "" || str_eq leaf_hash ""
      then false
      else str_eq (fold_path leaf_hash leaf_index path) root

module _ (hash_bytes : List ℕ → String) (hash_pair : String → String → String) where
  unfoldable pub build_merkle_proof : List ℕ → ℕ → ℕ → Result MerkleError MerkleProof
  build_merkle_proof bytes leaf_size leaf_index = do
    fail_if (leaf_size == 0) bad_leaf_size
    let leaves = leaf_hashes hash_bytes bytes leaf_size
    fail_if (leb (length leaves) leaf_index) index_out_of_range
    elim (climb hash_pair (length leaves) leaf_index leaves) [
      | none ↦ err out_of_fuel
      | some (path, root) ↦ ok (record {
        root = root;
        leaf_hash = at leaves leaf_index;
        leaf_index = leaf_index;
        leaf_size = leaf_size;
        path = path;
      })
    ]

  unfoldable pub data_merkle_root : List ℕ → ℕ → String
  data_merkle_root bytes leaf_size = elim (build_merkle_proof bytes leaf_size 0) [
    | ok proof ↦ proof.root
    | err _ ↦ hash_bytes []
  ]

  -- MerkleRoot (internal/crypto/hash.go)
  unfoldable pub merkle_root : List String → Option String
  merkle_root [] = some (hash_bytes [])
  merkle_root (leaf ∷ rest) = root_loop hash_pair (length (leaf ∷ rest)) (leaf ∷ rest)

-- LeafCount: how many leaves the chain expects of a shard.
unfoldable pub leaf_count : ℕ → ℕ → ℕ
leaf_count size leaf_size =
    if leaf_size == 0 || size == 0 then 1 else (size + leaf_size - 1) / leaf_size
