-- ===== src/Connection/Lines.antt =====
-- The lines of a stream of bytes: `while b"\n" in buf` of the readers.
use lan_chat.Base.{
  ℕ, suc, ◌≤◌, ◌≡◌, refl, false, List, [], ◌∷◌, ◌++◌, arith, length, ◌==◌, if◌then◌else◌,
  Bool-cases, inl, inr,
}

-- A byte before the first line, or before the rest if there is no line.
abbrev pub prepend : ℕ → List (List ℕ) × List ℕ → List (List ℕ) × List ℕ
prepend c ([], rest) = ([], c ∷ rest)
prepend c (l ∷ ls, rest) = ((c ∷ l) ∷ ls, rest)

-- The whole lines, and what stands behind the last line feed.
unfoldable pub split : List ℕ → List (List ℕ) × List ℕ
split [] = ([], [])
split (c ∷ s) =
    let (ls, rest) = split s in if c == 10 then ([] ∷ ls, rest) else prepend c (ls, rest)

abbrev join : List (List ℕ) × List ℕ → List (List ℕ) × List ℕ → List (List ℕ) × List ℕ
join (ls, a) (ks, b) = (ls ++ ks, b)

-- The lines of a stream that comes in two pieces.
pub split-append :
    (a b : List ℕ)
    → split (a ++ b) ≡ ((split a).0 ++ (split ((split a).1 ++ b)).0, (split ((split a).1 ++ b)).1)
unfolding split
split-append [] b = refl
split-append (c ∷ s) b = elim (Bool-cases (c == 10)) [
  | inl e ↦ rw (e, split-append s b) refl
  | inr e ↦ rw (e, split-append s b) (prepended e (split s))
]
  where
    prepended :
        c == 10 ≡ false
        → (o : List (List ℕ) × List ℕ)
        → prepend c (o.0 ++ (split (o.1 ++ b)).0, (split (o.1 ++ b)).1)
          ≡ ((prepend c o).0 ++ (split ((prepend c o).1 ++ b)).0, (split ((prepend c o).1 ++ b)).1)
    prepended e ([], rest) = rw e refl
    prepended e (l ∷ ls, rest) = refl

pub length-split : (s : List ℕ) → length (split s).1 ≤ length s
unfolding split
length-split [] = omega arith
length-split (c ∷ s) = elim (Bool-cases (c == 10)) [
  | inl e ↦ rw e (omega (arith, length-split s))
  | inr e ↦ rw e (prepended (split s) (length-split s))
]
  where
    prepended :
        (o : List (List ℕ) × List ℕ)
        → length o.1 ≤ length s
        → length (prepend c o).1 ≤ suc (length s)
    prepended ([], rest) h = omega (arith, h)
    prepended (l ∷ ls, rest) h = omega (arith, h)
