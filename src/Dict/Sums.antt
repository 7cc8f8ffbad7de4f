-- ===== src/Dict/Sums.antt =====
-- Sums over the values of a dictionary, and predicates on all its values.
use lan_chat.Base.{ℕ, ◌+◌, ◌≤◌, String, ◌≡◌, Bool, some, [], ◌∷◌, arith, keep}
use lan_chat.Dict.{Dict, lookup, insert, erase}

module _ {ℓ} {V : Type ℓ} where
  -- `sum(f(v) for v in d.values())`
  abbrev pub total : (V → ℕ) → Dict V → ℕ
  total f [] = 0
  total f ((k, v) ∷ d) = f v + total f d

  pub total-insert-le :
      (f : V → ℕ) (k : String) (v : V) (d : Dict V) → total f (insert k v d) ≤ total f d + f v
  unfolding insert
  total-insert-le f k v [] = omega arith
  total-insert-le f k v ((j, w) ∷ d) = ground (arith, total-insert-le f k v d)

  -- Writing over the value `w` puts the new share in the place of the old one.
  pub total-insert :
      (f : V → ℕ) (k : String) (v w : V) (d : Dict V)
      → lookup k d ≡ some w
      → total f (insert k v d) + f w ≡ total f d + f v
  unfolding insert lookup
  total-insert f k v w [] h = cc
  total-insert f k v w ((j, u) ∷ d) h = ground (arith, total-insert f k v w d)

  pub total-erase-le : (f : V → ℕ) (k : String) (d : Dict V) → total f (erase k d) ≤ total f d
  unfolding erase
  total-erase-le f k [] = omega arith
  total-erase-le f k ((j, w) ∷ d) = ground (arith, total-erase-le f k d)

  pub total-erase :
      (f : V → ℕ) (k : String) (w : V) (d : Dict V)
      → lookup k d ≡ some w
      → total f (erase k d) + f w ≤ total f d
  unfolding erase lookup
  total-erase f k w [] h = cc
  total-erase f k w ((j, u) ∷ d) h = ground (arith, total-erase f k w d, total-erase-le f k d)

  pub le-total :
      (f : V → ℕ) (k : String) (w : V) (d : Dict V) → lookup k d ≡ some w → f w ≤ total f d
  unfolding lookup
  le-total f k w [] h = cc
  le-total f k w ((j, u) ∷ d) h = ground (arith, le-total f k w d)

  pub total-keep-le :
      (f : V → ℕ) (test : String × V → Bool) (d : Dict V) → total f (keep test d) ≤ total f d
  total-keep-le f test [] = omega arith
  total-keep-le f test ((j, w) ∷ d) = ground (arith, total-keep-le f test d)

module _ {ℓ κ} {V : Type ℓ} where
  abbrev pub AllValues : (V → Type κ) → Dict V → Type κ
  AllValues P [] = Unit
  AllValues P ((k, v) ∷ d) = P v × AllValues P d

  pub AllValues-insert :
      (P : V → Type κ) (k : String) (v : V) (d : Dict V)
      → P v
      → AllValues P d
      → AllValues P (insert k v d)
  unfolding insert
  AllValues-insert P k v [] p h = (p, tt)
  AllValues-insert P k v ((j, w) ∷ d) p h = ground (arith, AllValues-insert P k v d p h.1)

  pub AllValues-erase :
      (P : V → Type κ) (k : String) (d : Dict V) → AllValues P d → AllValues P (erase k d)
  unfolding erase
  AllValues-erase P k [] h = h
  AllValues-erase P k ((j, w) ∷ d) h = ground (arith, AllValues-erase P k d h.1)

  pub AllValues-keep :
      (P : V → Type κ) (test : String × V → Bool) (d : Dict V)
      → AllValues P d
      → AllValues P (keep test d)
  AllValues-keep P test [] h = h
  AllValues-keep P test ((j, w) ∷ d) h = ground (arith, AllValues-keep P test d h.1)

  pub AllValues-lookup :
      (P : V → Type κ) (k : String) (w : V) (d : Dict V) → AllValues P d → lookup k d ≡ some w → P w
  unfolding lookup
  AllValues-lookup P k w [] h e = cc
  AllValues-lookup P k w ((j, u) ∷ d) h e = ground (arith, AllValues-lookup P k w d h.1)
