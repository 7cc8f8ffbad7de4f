-- ===== src/Settings/Defaults.antt =====
-- What is in force after a start.
use lan_chat.Base.{
  ◌≡◌, ◌≢◌, refl, sym, ◌∙◌, ap, String, Option, none, some, [], ◌∷◌, arith, str_eq, eq_iff,
  if_cases, Bool-cases, Option-cases, inl, inr, if◌then◌else◌,
}
use lan_chat.Dict.{Dict, lookup, has, lookup-insert, lookup-insert_ne, has-lookup, has-lookup-none}
use lan_chat.Settings.Config.{
  Value, Host, setdefault, setdefaults, early_defaults, limit_defaults, late_defaults, is_blank,
  named, completed,
}

-- A value, or else the other one.
abbrev pub or_else : Option Value → Option Value → Option Value
or_else none o = o
or_else (some v) o = some v

or_none : (o : Option Value) → or_else o none ≡ o
or_none none = refl
or_none (some v) = refl

-- One default, before others that say `later`.
setdefault_else :
    (j k : String) (v : Value) (later : Option Value) (c : Dict Value)
    → or_else (lookup j (setdefault k v c)) later
      ≡ or_else (lookup j c) (if str_eq k j then some v else later)
setdefault_else j k v later c = elim (Option-cases (lookup k c)) [
  | inl e ↦
      rw (has-lookup-none k c e, lookup-insert k j v c)
        (elim (Bool-cases (str_eq k j)) [
          | inl t ↦ rw t (rw (← (eq_iff k j).0 t, e) refl)
          | inr f ↦ rw f refl
        ])
  | inr (x, e) ↦ rw (has-lookup k x c e) (elim (Bool-cases (str_eq k j)) [
    | inl t ↦ rw t (rw (← (eq_iff k j).0 t, e) refl)
    | inr f ↦ rw f refl
  ])
]

-- A default stands only where there was no value.
pub lookup-setdefaults :
    (j : String) (ds c : Dict Value)
    → lookup j (setdefaults ds c) ≡ or_else (lookup j c) (lookup j ds)
unfolding setdefaults lookup
lookup-setdefaults j [] c = sym (or_none (lookup j c))
lookup-setdefaults j ((k, v) ∷ ds) c =
    lookup-setdefaults j ds (setdefault k v c) ∙ setdefault_else j k v (lookup j ds) c

or_else_assoc : (a b c : Option Value) → or_else (or_else a b) c ≡ or_else a (or_else b c)
or_else_assoc none b c = refl
or_else_assoc (some v) b c = refl

named-lookup :
    (h : Host) (j : String) (c : Dict Value) → "displayName" ≢ j → lookup j (named h c) ≡ lookup j c
unfolding named
named-lookup h j c other =
    if_cases (λ (x : Dict Value). lookup j x ≡ lookup j c) (is_blank (lookup "displayName" c))
      (λ _. lookup-insert_ne "displayName" j _ c other) (λ _. refl)

-- Every value of the file but the name is kept by a start, and what the file does not have gets the
-- default.
pub lookup-completed :
    (h : Host) (c : Dict Value) (j : String)
    → "displayName" ≢ j
    → lookup j (completed h (some c))
      ≡ or_else (lookup j c) (
          or_else
            (lookup j early_defaults)
            (or_else (lookup j limit_defaults) (lookup j (late_defaults h))))
unfolding completed
lookup-completed h c j other =
    lookup-setdefaults j (late_defaults h) _
    ∙ ap (λ o. or_else o (lookup j (late_defaults h)))
        (lookup-setdefaults j limit_defaults (named h (setdefaults early_defaults c))
          ∙ ap (λ o. or_else o (lookup j limit_defaults))
              (named-lookup h j (setdefaults early_defaults c) other
                ∙ lookup-setdefaults j early_defaults c))
    ∙ or_else_assoc (or_else (lookup j c) (lookup j early_defaults)) (lookup j limit_defaults)
        (lookup j (late_defaults h))
    ∙ or_else_assoc (lookup j c) (lookup j early_defaults)
        (or_else (lookup j limit_defaults) (lookup j (late_defaults h)))

-- The same keys have a default on every host.
late_keys :
    (h h' : Host) (j : String)
    → lookup j (late_defaults h) ≡ none
    → lookup j (late_defaults h') ≡ none
unfolding has
late_keys h h' j e = elim (Option-cases (lookup j (late_defaults h'))) [
  | inl gone ↦ gone
  | inr (v, there) ↦ absurd (
      ground (
        arith,
        has-lookup-none j (late_defaults h) e,
        has-lookup j v (late_defaults h') there,
        same,
      ))
]
  where
    same : has j (late_defaults h) ≡ has j (late_defaults h')
    same = refl

settled :
    (early a b c : Option Value)
    → (a ≡ none → b ≡ none)
    → (x : Option Value) → x ≡ or_else c (or_else early a)
    → or_else x (or_else early b) ≡ x
settled early a b (some v) f x e = rw e refl
settled (some v) a b none f x e = rw e refl
settled none (some v) b none f x e = rw e refl
settled none none b none f x e = rw (e, f refl) refl

-- A second start, on whatever host, finds every value but the name as the first one wrote it.
pub completed-completed :
    (h h' : Host) (c : Dict Value) (j : String)
    → "displayName" ≢ j
    → lookup j (completed h' (some (completed h (some c)))) ≡ lookup j (completed h (some c))
completed-completed h h' c j other =
    lookup-completed h' (completed h (some c)) j other
    ∙ ap (or_else (lookup j (completed h (some c)))) (
        sym (
          or_else_assoc (lookup j early_defaults) (lookup j limit_defaults)
            (lookup j (late_defaults h'))))
    ∙ settled (or_else (lookup j early_defaults) (lookup j limit_defaults))
        (lookup j (late_defaults h)) (lookup j (late_defaults h')) (lookup j c) (late_keys h h' j)
        (lookup j (completed h (some c)))
        (lookup-completed h c j other
          ∙ ap (or_else (lookup j c)) (
              sym (
                or_else_assoc (lookup j early_defaults) (lookup j limit_defaults)
                  (lookup j (late_defaults h)))))
