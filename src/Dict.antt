-- ===== src/Dict.antt =====
-- A Go map with string keys, as an association list: the first entry of a key counts.
pub mod Laws
use falari.Prelude.{
  ℕ, suc, ◌+◌, String, Bool, true, false, Option, none, some, List, [], ◌∷◌, str_eq, if◌then◌else◌,
}

abbrev pub Dict {ℓ} : Type ℓ → Type ℓ
Dict V = List (String × V)

module _ {ℓ} {V : Type ℓ} where
  -- `v, ok := m[k]`
  abbrev pub lookup : String → Dict V → Option V
  lookup k [] = none
  lookup k ((j, v) ∷ m) = if str_eq j k then some v else lookup k m

  -- `_, ok := m[k]`
  abbrev pub has : String → Dict V → Bool
  has k m = elim (lookup k m) [ none ↦ false | some _ ↦ true ]

  -- `m[k] = v`
  abbrev pub insert : String → V → Dict V → Dict V
  insert k v [] = (k, v) ∷ []
  insert k v ((j, w) ∷ m) = if str_eq j k then (k, v) ∷ m else (j, w) ∷ insert k v m

  -- `delete(m, k)`
  abbrev pub erase : String → Dict V → Dict V
  erase k [] = []
  erase k ((j, w) ∷ m) = if str_eq j k then m else (j, w) ∷ erase k m

  -- A measure of the entry under a key, 0 where there is none.
  abbrev pub value_of : (V → ℕ) → Option V → ℕ
  value_of f none = 0
  value_of f (some v) = f v

  -- The sum of a measure over all entries.
  abbrev pub total : (V → ℕ) → Dict V → ℕ
  total f [] = 0
  total f ((_, v) ∷ m) = f v + total f m
