-- ===== src/Saving/Safe.antt =====
-- A name that is made safe stays in its directory.
use Prim.Native.Char.{Char, code}
use Prim.Native.String.{[] as nil, ◌∷◌ as ◌∷ₛ◌}
use lan_chat.Base.{
  ◌≡◌, refl, ◌⊎◌, inl, inr, String, Bool, true, false, ◌&&◌, arith, leb, Bool-cases, if_cases,
}
use lan_chat.Naming.{joined}
use lan_chat.Saving.Name.{
  is_separator, is_edge, has_separator, last_part, strip_start, put_kept, strip_end, or_download,
  safe_filename,
}

abbrev pub Each : (Char → Type 0) → String → Type 0
Each P nil = Unit
Each P (c ∷ₛ s) = P c × Each P s

-- The last character, `c` if there is none, is no space and no dot.
abbrev pub EndsWell : Char → String → Type 0
EndsWell c nil = is_edge c ≡ false
EndsWell c (d ∷ₛ s) = EndsWell d s

-- The text is not empty, and neither its first character nor its last is a space or a dot.
abbrev pub IsTrimmed : String → Type 0
IsTrimmed nil = ⊥
IsTrimmed (c ∷ₛ s) = (is_edge c ≡ false) × EndsWell c s

unseparated : (s : String) → has_separator s ≡ false → Each (λ c. is_separator c ≡ false) s
unfolding has_separator
unseparated nil h = tt
unseparated (c ∷ₛ s) h = elim (Bool-cases (is_separator c)) [
  | inl e ↦ absurd (ground (arith, e, h))
  | inr e ↦ (e, unseparated s (ground (arith, e, h)))
]

Each-last_part : (s : String) → Each (λ c. is_separator c ≡ false) (last_part s)
unfolding last_part
Each-last_part nil = tt
Each-last_part (c ∷ₛ s) =
    if_cases (Each (λ d. is_separator d ≡ false)) (has_separator s) (λ _. Each-last_part s)
      (λ e.
        if_cases (Each (λ d. is_separator d ≡ false)) (is_separator c) (λ _. unseparated s e)
          (λ e'. (e', unseparated s e)))

Each-joined_test : (test : Char → Bool) (s : String) → Each (λ c. test c ≡ true) (joined test s)
Each-joined_test test nil = tt
Each-joined_test test (c ∷ₛ s) =
    if_cases (Each (λ d. test d ≡ true)) (test c) (λ e. (e, Each-joined_test test s))
      (λ _. Each-joined_test test s)

module _ (P : Char → Type 0) where
  Each-joined : (test : Char → Bool) (s : String) → Each P s → Each P (joined test s)
  Each-joined test nil h = h
  Each-joined test (c ∷ₛ s) h =
      if_cases (Each P) (test c) (λ _. (h.0, Each-joined test s h.1)) (λ _. Each-joined test s h.1)

  Each-strip_start : (s : String) → Each P s → Each P (strip_start s)
  unfolding strip_start
  Each-strip_start nil h = h
  Each-strip_start (c ∷ₛ s) h = if_cases (Each P) (is_edge c) (λ _. Each-strip_start s h.1) (λ _. h)

  Each-put_kept : (c : Char) (s : String) → P c → Each P s → Each P (put_kept c s)
  Each-put_kept c nil p h = if_cases (Each P) (is_edge c) (λ _. tt) (λ _. (p, tt))
  Each-put_kept c (d ∷ₛ s) p h = (p, h)

  Each-strip_end : (s : String) → Each P s → Each P (strip_end s)
  unfolding strip_end
  Each-strip_end nil h = h
  Each-strip_end (c ∷ₛ s) h = Each-put_kept c (strip_end s) h.0 (Each-strip_end s h.1)

-- The text is empty or starts, or ends, as a trimmed one.
abbrev Starts : String → Type 0
Starts nil = Unit
Starts (c ∷ₛ s) = is_edge c ≡ false

abbrev Finishes : String → Type 0
Finishes nil = Unit
Finishes (c ∷ₛ s) = EndsWell c s

strip_start-Starts : (s : String) → Starts (strip_start s)
unfolding strip_start
strip_start-Starts nil = tt
strip_start-Starts (c ∷ₛ s) = if_cases Starts (is_edge c) (λ _. strip_start-Starts s) (λ e. e)

put_kept-Starts : (c : Char) (s : String) → is_edge c ≡ false → Starts (put_kept c s)
put_kept-Starts c nil h = if_cases Starts (is_edge c) (λ _. tt) (λ _. h)
put_kept-Starts c (d ∷ₛ s) h = h

strip_end-Starts : (s : String) → Starts s → Starts (strip_end s)
unfolding strip_end
strip_end-Starts nil h = h
strip_end-Starts (c ∷ₛ s) h = put_kept-Starts c (strip_end s) h

put_kept-Finishes : (c : Char) (s : String) → Finishes s → Finishes (put_kept c s)
put_kept-Finishes c nil h = if_cases Finishes (is_edge c) (λ _. tt) (λ e. e)
put_kept-Finishes c (d ∷ₛ s) h = h

strip_end-Finishes : (s : String) → Finishes (strip_end s)
unfolding strip_end
strip_end-Finishes nil = tt
strip_end-Finishes (c ∷ₛ s) = put_kept-Finishes c (strip_end s) (strip_end-Finishes s)

abbrev pub IsSafe : (Char → Bool) → String → Type 0
IsSafe is_printable s =
    IsTrimmed s
    × Each (λ c. is_separator c ≡ false) s
    × Each (λ c. is_printable c && leb 32 (code c) ≡ true) s

-- A name that is made safe is "download", or it is not empty, has neither a separator nor a control
-- character, and neither starts nor ends with a space or a dot.
pub safe_filename-IsSafe :
    (is_printable : Char → Bool) (name : String)
    → (safe_filename is_printable name ≡ "download")
      ⊎ IsSafe is_printable (safe_filename is_printable name)
unfolding safe_filename
safe_filename-IsSafe is_printable name =
    chosen (strip_end core) (strip_end-Starts core (strip_start-Starts kept))
      (strip_end-Finishes core)
      (whole (λ c. is_separator c ≡ false)
        (Each-joined _ clear (last_part name) (Each-last_part name)))
      (whole (λ c. clear c ≡ true) (Each-joined_test clear (last_part name)))
  where
    clear : Char → Bool
    clear c = is_printable c && leb 32 (code c)

    kept : String
    kept = joined clear (last_part name)

    core : String
    core = strip_start kept

    whole : (P : Char → Type 0) → Each P kept → Each P (strip_end core)
    whole P h = Each-strip_end P core (Each-strip_start P kept h)

    chosen :
        (s : String)
        → Starts s
        → Finishes s
        → Each (λ c. is_separator c ≡ false) s
        → Each (λ c. clear c ≡ true) s
        → (or_download s ≡ "download") ⊎ IsSafe is_printable (or_download s)
    chosen nil a b e f = inl refl
    chosen (c ∷ₛ s) a b e f = inr ((a, b), e, f)
