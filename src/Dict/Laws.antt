-- ===== src/Dict/Laws.antt =====
-- The laws of maps: what a write or a deletion does to each key and to a sum over the entries.
use falari.Prelude.{
  ℕ, ◌+◌, ◌≤◌, String, ◌≡◌, refl, ◌≢◌, inl, inr, false, some, [], ◌∷◌, str_eq, eq_iff,
  if◌then◌else◌, Bool-cases, arith,
}
use falari.Dict.{Dict, lookup, insert, erase, value_of, total}

pub str_eq-false : (j k : String) → j ≢ k → str_eq j k ≡ false
str_eq-false j k h = elim (Bool-cases (str_eq j k)) [
  | inl e ↦ absurd (h ((eq_iff j k).0 e))
  | inr e ↦ e
]

pub str_ne-of-false : (j k : String) → str_eq j k ≡ false → j ≢ k
str_ne-of-false j k h e = ground (arith, eq_iff j k)

module _ {ℓ} {V : Type ℓ} where
  pub lookup-insert :
      (k j : String) (v : V) (m : Dict V)
      → lookup j (insert k v m) ≡ (if str_eq k j then some v else lookup j m)
  lookup-insert k j v [] = refl
  lookup-insert k j v ((i, w) ∷ m) =
      ground (arith, eq_iff k j, eq_iff i k, eq_iff i j, lookup-insert k j v m)

  pub lookup-insert_self : (k : String) (v : V) (m : Dict V) → lookup k (insert k v m) ≡ some v
  lookup-insert_self k v m = ground (arith, eq_iff k k, lookup-insert k k v m)

  pub lookup-insert_ne :
      (k j : String) (v : V) (m : Dict V) → k ≢ j → lookup j (insert k v m) ≡ lookup j m
  lookup-insert_ne k j v m h = ground (arith, str_eq-false k j h, lookup-insert k j v m)

  pub lookup-erase_ne : (k j : String) (m : Dict V) → k ≢ j → lookup j (erase k m) ≡ lookup j m
  lookup-erase_ne k j [] h = refl
  lookup-erase_ne k j ((i, w) ∷ m) h =
      ground (arith, eq_iff i k, eq_iff i j, eq_iff k j, lookup-erase_ne k j m h)

  pub total-insert :
      (f : V → ℕ) (k : String) (v : V) (m : Dict V)
      → total f (insert k v m) + value_of f (lookup k m) ≡ total f m + f v
  total-insert f k v [] = omega arith
  total-insert f k v ((i, w) ∷ m) = ground (arith, total-insert f k v m)

  pub total-erase :
      (f : V → ℕ) (k : String) (m : Dict V)
      → total f (erase k m) + value_of f (lookup k m) ≡ total f m
  total-erase f k [] = refl
  total-erase f k ((i, w) ∷ m) = ground (arith, total-erase f k m)

  pub value_of-le-total :
      (f : V → ℕ) (k : String) (m : Dict V) → value_of f (lookup k m) ≤ total f m
  value_of-le-total f k [] = omega arith
  value_of-le-total f k ((i, w) ∷ m) = ground (arith, value_of-le-total f k m)
