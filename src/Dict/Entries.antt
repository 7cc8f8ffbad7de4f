-- ===== src/Dict/Entries.antt =====
-- Predicates on all entries of a dictionary, key and value.
use lan_chat.Base.{String, ◌≡◌, Bool, some, [], ◌∷◌, arith, keep, str_eq, eq_iff, if_cases}
use lan_chat.Dict.{Dict, lookup, insert, erase}

module _ {ℓ κ} {V : Type ℓ} where
  abbrev pub AllEntries : (String → V → Type κ) → Dict V → Type κ
  AllEntries P [] = Unit
  AllEntries P ((k, v) ∷ d) = P k v × AllEntries P d

  pub AllEntries-map :
      (P Q : String → V → Type κ)
      → ((k : String) (v : V) → P k v → Q k v)
      → (d : Dict V) → AllEntries P d
      → AllEntries Q d
  AllEntries-map P Q f [] h = h
  AllEntries-map P Q f ((k, v) ∷ d) h = (f k v h.0, AllEntries-map P Q f d h.1)

  pub AllEntries-insert :
      (P : String → V → Type κ) (k : String) (v : V) (d : Dict V)
      → P k v
      → AllEntries P d
      → AllEntries P (insert k v d)
  unfolding insert
  AllEntries-insert P k v [] p h = (p, tt)
  AllEntries-insert P k v ((j, w) ∷ d) p h =
      let rest = AllEntries-insert P k v d p h.1 in
      if_cases (AllEntries P) (str_eq j k) (λ e. (p, h.1)) (λ e. (h.0, rest))

  pub AllEntries-erase :
      (P : String → V → Type κ) (k : String) (d : Dict V)
      → AllEntries P d
      → AllEntries P (erase k d)
  unfolding erase
  AllEntries-erase P k [] h = h
  AllEntries-erase P k ((j, w) ∷ d) h = ground (arith, AllEntries-erase P k d h.1)

  pub AllEntries-keep :
      (P : String → V → Type κ) (test : String × V → Bool) (d : Dict V)
      → AllEntries P d
      → AllEntries P (keep test d)
  AllEntries-keep P test [] h = h
  AllEntries-keep P test ((j, w) ∷ d) h = ground (arith, AllEntries-keep P test d h.1)

  pub AllEntries-lookup :
      (P : String → V → Type κ) (k : String) (w : V) (d : Dict V)
      → AllEntries P d
      → lookup k d ≡ some w
      → P k w
  unfolding lookup
  AllEntries-lookup P k w [] h e = absurd (ground (arith, e))
  AllEntries-lookup P k w ((j, u) ∷ d) h e =
      ground (arith, AllEntries-lookup P k w d h.1, eq_iff j k, h.0, e)
