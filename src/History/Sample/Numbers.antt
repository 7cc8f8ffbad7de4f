-- ===== src/History/Sample/Numbers.antt =====
-- Texts as lists of numbers and back, for the tests.
use Prim.Native.Nat.{Ordering, compare}
use Prim.Native.Char.{Char, char, code, IsLt, IsScalar}
use Prim.Native.String.{[] as nil, ◌∷◌ as ◌∷ₛ◌}
use lan_chat.Base.{
  ℕ, zero, suc, ◌+◌, ◌≤◌, String, ◌≡◌, refl, ap, ◌∙◌, false, Option, none, some, List, [], ◌∷◌,
  arith, length, str_eq, ◌==◌, if◌then◌else◌, eq_iff, Bool-cases, inl, inr,
}
use text.Mathlib.TextLemmas.{cons≢nil}

abbrev Both : Ordering → Ordering → Type 0
Both Ordering.lt o = IsLt o
Both Ordering.eq _ = ⊥
Both Ordering.gt _ = ⊥

abbrev Scalar : Ordering → Ordering → Ordering → Type 0
Scalar Ordering.lt _ _ = Unit
Scalar Ordering.eq o p = Both o p
Scalar Ordering.gt o p = Both o p

abbrev both_char : (n : ℕ) (p q : Ordering) → (Both p q → IsScalar n) → Option Char
both_char n Ordering.lt Ordering.lt f = some (char n (f tt))
both_char n _ _ f = none

abbrev scalar_char : (n : ℕ) (o p q : Ordering) → (Scalar o p q → IsScalar n) → Option Char
scalar_char n Ordering.lt p q f = some (char n (f tt))
scalar_char n Ordering.eq p q f = both_char n p q f
scalar_char n Ordering.gt p q f = both_char n p q f

pub to_char : ℕ → Option Char
to_char n = scalar_char n (compare n 55296) (compare 57343 n) (compare n 1114112) (λ x. x)

both_char-some :
    (n : ℕ) (p q : Ordering) (f : Both p q → IsScalar n) (x : Both p q)
    → both_char n p q f ≡ some (char n (f x))
both_char-some n Ordering.lt Ordering.lt f x = refl
both_char-some n Ordering.lt Ordering.eq f x = absurd x
both_char-some n Ordering.lt Ordering.gt f x = absurd x
both_char-some n Ordering.eq q f x = absurd x
both_char-some n Ordering.gt q f x = absurd x

scalar_char-some :
    (n : ℕ) (o p q : Ordering) (f : Scalar o p q → IsScalar n) (x : Scalar o p q)
    → scalar_char n o p q f ≡ some (char n (f x))
scalar_char-some n Ordering.lt p q f x = refl
scalar_char-some n Ordering.eq p q f x = both_char-some n p q f x
scalar_char-some n Ordering.gt p q f x = both_char-some n p q f x

pub to_char-code : (c : Char) → to_char (code c) ≡ some c
unfolding to_char
to_char-code (char n s) = scalar_char-some n _ _ _ (λ x. x) s

abbrev pub codes : String → List ℕ
codes nil = []
codes (c ∷ₛ s) = code c ∷ codes s

pub from_codes : List ℕ → Option String
from_codes [] = some nil
from_codes (n ∷ ns) =
    let rest = from_codes ns in
    elim (to_char n) [ none ↦ none | some c ↦ elim rest [ none ↦ none | some s ↦ some (c ∷ₛ s) ] ]

pub from_codes-codes : (s : String) → from_codes (codes s) ≡ some s
unfolding from_codes
from_codes-codes nil = refl
from_codes-codes (c ∷ₛ s) = rw (from_codes, to_char-code c, from_codes-codes s)

-- n times '1', then the text
abbrev ones : ℕ → String → String
ones zero s = s
ones (suc n) s = "1" ∷ₛ ones n s

abbrev pub digits : List ℕ → String
digits [] = nil
digits (n ∷ ns) = ones n ("0" ∷ₛ digits ns)

abbrev pub numbers : ℕ → String → List ℕ
numbers n nil = []
numbers n (c ∷ₛ s) =
    let more = numbers (suc n) s in
    let next = numbers 0 s in if code c == 49 then more else n ∷ next

numbers-ones : (m n : ℕ) (s : String) → numbers m (ones n s) ≡ numbers (m + n) s
numbers-ones m zero s = let e : m ≡ m + 0 = omega arith in ap (λ k. numbers k s) e
numbers-ones m (suc n) s =
    let e : suc m + n ≡ m + suc n = omega arith in
    numbers-ones (suc m) n s ∙ ap (λ k. numbers k s) e

pub numbers-digits : (ns : List ℕ) → numbers 0 (digits ns) ≡ ns
numbers-digits [] = refl
numbers-digits (n ∷ ns) =
    let e : 0 + n ≡ n = omega arith in
    rw (numbers-ones 0 n ("0" ∷ₛ digits ns), e) (ap (◌∷◌ n) (numbers-digits ns))

filled : (c : Char) (s : String) → str_eq (c ∷ₛ s) nil ≡ false
filled c s = elim (Bool-cases (str_eq (c ∷ₛ s) nil)) [
  | inl e ↦ absurd (cons≢nil ((eq_iff (c ∷ₛ s) nil).0 e))
  | inr e ↦ e
]

pub digits_not_empty : (ns : List ℕ) → 1 ≤ length ns → str_eq (digits ns) "" ≡ false
digits_not_empty [] h = absurd (omega arith)
digits_not_empty (zero ∷ ns) h = filled _ _
digits_not_empty (suc n ∷ ns) h = filled _ _
