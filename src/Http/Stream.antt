-- ===== src/Http/Stream.antt =====
-- The bytes of a socket, and the line that a stream of bytes starts with.
use mathlib.Core.List.{append_assoc}
use lan_chat.Base.{
  if_cases, length-take, ℕ, zero, suc, ◌≤◌, ◌<◌, ◌≡◌, refl, sym, ◌∙◌, ap, max, none, some, List, [],
  ◌∷◌, ◌++◌, ◌==◌, ltb, length, take, drop, take-append-drop, arith, Bool-cases, Option-cases,
  eq_of_some, true, false, inl, inr, if◌then◌else◌,
}
use lan_chat.Http.Reader.{Sock, quiet, closed, arrives, Recv, late, chunk, leftover, recv, find_nl}

-- All bytes that a socket brings, and those that come before the deadline.
abbrev pub rest : Sock → List ℕ
rest quiet = []
rest (closed t) = []
rest (arrives t b bs sock) = (b ∷ bs) ++ rest sock

abbrev pub in_time : ℕ → ℕ → Sock → List ℕ
in_time deadline now quiet = []
in_time deadline now (closed t) = []
in_time deadline now (arrives t b bs sock) =
    let more = in_time deadline (max now t) sock in
    if ltb (max now t) deadline then (b ∷ bs) ++ more else []

-- The bytes up to the first line feed, at most `n` of them.
abbrev pub first_line : ℕ → List ℕ → List ℕ
first_line zero s = []
first_line (suc n) [] = []
first_line (suc n) (c ∷ s) = let more = first_line n s in if c == 10 then c ∷ [] else c ∷ more

-- What a piece that is received has to do with what the socket brings.
pub data Received (deadline n now : ℕ) (sock : Sock) (o : Recv) : Type 0 where
  nothing : o ≡ late → in_time deadline now sock ≡ [] → Received deadline n now sock o
  ended :
      (t : ℕ) (sock' : Sock)
      → o ≡ chunk [] t sock'
      → t < deadline
      → rest sock ≡ []
      → rest sock' ≡ []
      → in_time deadline now sock ≡ []
      → Received deadline n now sock o
  piece :
      (b : ℕ) (bs : List ℕ) (t : ℕ) (sock' : Sock)
      → o ≡ chunk (b ∷ bs) t sock'
      → t < deadline
      → length (b ∷ bs) ≤ n
      → (b ∷ bs) ++ rest sock' ≡ rest sock
      → (b ∷ bs) ++ in_time deadline t sock' ≡ in_time deadline now sock
      → Received deadline n now sock o

rest-leftover : (t : ℕ) (bs : List ℕ) (sock : Sock) → rest (leftover t bs sock) ≡ bs ++ rest sock
rest-leftover t [] sock = refl
rest-leftover t (b ∷ bs) sock = refl

in_time-leftover :
    (deadline now t : ℕ) (bs : List ℕ) (sock : Sock)
    → max now t < deadline
    → in_time deadline (max now t) (leftover t bs sock) ≡ bs ++ in_time deadline (max now t) sock
in_time-leftover deadline now t [] sock h = refl
in_time-leftover deadline now t (b ∷ bs) sock h = rw (← same) (
    if_cases (λ x. x ≡ b ∷ (bs ++ in_time deadline (max now t) sock)) (ltb (max now t) deadline)
      (λ e. refl) (λ e. absurd (ground (arith, e, h))))
  where
    same : max now t ≡ max (max now t) t
    same = omega arith

pub recv-Received :
    (deadline n now : ℕ) (sock : Sock)
    → 0 < n
    → Received deadline n now sock (recv deadline n now sock)
unfolding recv
recv-Received deadline n now quiet pos = nothing refl refl
recv-Received deadline n now (closed t) pos = elim (Bool-cases (ltb (max now t) deadline)) [
  | inl e ↦ rw e (ended (max now t) (closed t) refl (ground (arith, e)) refl refl refl)
  | inr e ↦ rw e (nothing refl refl)
]
recv-Received deadline zero now (arrives t b bs sock) pos = absurd (omega arith)
recv-Received deadline (suc n) now (arrives t b bs sock) pos =
    elim (Bool-cases (ltb (max now t) deadline)) [
      | inl e ↦ rw e (
          piece b (take n bs) (max now t) (leftover t (drop n bs) sock) refl (ground (arith, e))
            (omega (arith, length-take n bs)) whole (early e))
      | inr e ↦ rw e (nothing refl (rw e refl))
    ]
  where
    whole : b ∷ (take n bs ++ rest (leftover t (drop n bs) sock)) ≡ b ∷ (bs ++ rest sock)
    whole =
        rw
          (
            rest-leftover t (drop n bs) sock,
            ← append_assoc (take n bs) (drop n bs) (rest sock),
            take-append-drop n bs,
          )
          refl

    early :
        ltb (max now t) deadline ≡ true
        → b ∷ (take n bs ++ in_time deadline (max now t) (leftover t (drop n bs) sock))
          ≡ in_time deadline now (arrives t b bs sock)
    early e =
        rw
          (
            e,
            in_time-leftover deadline now t (drop n bs) sock (ground (arith, e)),
            ← append_assoc (take n bs) (drop n bs) (in_time deadline (max now t) sock),
            take-append-drop n bs,
          )
          refl

find_nl-none : (c : ℕ) (s : List ℕ) → c == 10 ≡ false → find_nl (c ∷ s) ≡ none → find_nl s ≡ none
unfolding find_nl
find_nl-none c s e h = elim (Option-cases (find_nl s)) [
  | inl none_left ↦ none_left
  | inr (i, found) ↦
      let there : find_nl (c ∷ s) ≡ some (suc i) = rw (e, found) refl in
      absurd (ground (arith, sym h ∙ there))
]

find_nl-some :
    (c i : ℕ) (s : List ℕ)
    → c == 10 ≡ false
    → find_nl (c ∷ s) ≡ some i
    → (j : ℕ) × (i ≡ suc j) × (find_nl s ≡ some j)
unfolding find_nl
find_nl-some c i s e h = elim (Option-cases (find_nl s)) [
  | inl none_left ↦
      let gone : find_nl (c ∷ s) ≡ none = rw (e, none_left) refl in
      absurd (ground (arith, sym gone ∙ h))
  | inr (j, found) ↦
      let there : find_nl (c ∷ s) ≡ some (suc j) = rw (e, found) refl in
      (j, eq_of_some (sym h ∙ there), found)
]

pub first_line-take : (n : ℕ) (s : List ℕ) → find_nl s ≡ none → first_line n s ≡ take n s
unfolding find_nl
first_line-take zero s h = refl
first_line-take (suc n) [] h = refl
first_line-take (suc n) (c ∷ s) h = elim (Bool-cases (c == 10)) [
  | inl e ↦
      let there : find_nl (c ∷ s) ≡ some 0 = rw e refl in absurd (ground (arith, sym h ∙ there))
  | inr e ↦ rw e (ap (◌∷◌ c) (first_line-take n s (find_nl-none c s e h)))
]

pub first_line_append :
    (n : ℕ) (s more : List ℕ) → n ≤ length s → first_line n (s ++ more) ≡ first_line n s
first_line_append zero s more h = refl
first_line_append (suc n) [] more h = absurd (omega arith)
first_line_append (suc n) (c ∷ s) more h = rw (first_line_append n s more (omega arith)) refl

-- With a line feed at `i`, whatever comes behind it.
pub first_line_found :
    (n i : ℕ) (s more : List ℕ)
    → i < n
    → find_nl s ≡ some i
    → first_line n (s ++ more) ≡ take (suc i) s
unfolding find_nl
first_line_found zero i s more le h = absurd (omega arith)
first_line_found (suc n) i [] more le h = absurd (ground (arith, h))
first_line_found (suc n) i (c ∷ s) more le h = elim (Bool-cases (c == 10)) [
  | inl e ↦
      let there : find_nl (c ∷ s) ≡ some 0 = rw e refl in
      let start : i ≡ 0 = eq_of_some (sym h ∙ there) in rw (e, start) refl
  | inr e ↦
      let (j, same, found) = find_nl-some c i s e h in
      rw (e, same, first_line_found n j s more (omega arith) found) refl
]

pub first_line_far :
    (n i : ℕ) (s more : List ℕ) → n ≤ i → find_nl s ≡ some i → first_line n (s ++ more) ≡ take n s
unfolding find_nl
first_line_far zero i s more le h = refl
first_line_far (suc n) i [] more le h = absurd (ground (arith, h))
first_line_far (suc n) i (c ∷ s) more le h = elim (Bool-cases (c == 10)) [
  | inl e ↦
      let there : find_nl (c ∷ s) ≡ some 0 = rw e refl in
      let start : i ≡ 0 = eq_of_some (sym h ∙ there) in absurd (omega (arith, le, start))
  | inr e ↦
      let (j, same, found) = find_nl-some c i s e h in
      rw (e, first_line_far n j s more (omega arith) found) refl
]
