-- ===== src/Http/Lines.antt =====
-- `readline` gives a prefix of what comes in time, however it is cut in pieces.
use mathlib.Core.List.{append_assoc, append-nil}
use mathlib.Core.Path.{subst}
use lan_chat.Base.{
  ℕ, zero, suc, ◌+◌, ◌-◌, ◌≤◌, ◌<◌, ◌≡◌, refl, sym, ◌∙◌, ap, inl, inr, min, max, none, List, [],
  ◌∷◌, ◌++◌, false, arith, ltb, leb, length, take, drop, length-append, take-append-drop, take_all,
  Bool-cases, Option-cases, if_cases,
}
use lan_chat.Http.Reader.{
  Sock, recv, RequestReader, Read, bytes, timeout, find_nl, hand_out, readline,
}
use lan_chat.Http.Stream.{
  rest, in_time, first_line, Received, nothing, ended, piece, recv-Received, first_line-take,
  first_line_append, first_line_found, first_line_far,
}

-- All that a reader can still give, and what it can give before the deadline.
abbrev pub pending : RequestReader → List ℕ
pending r = r.buf ++ rest r.sock

abbrev pub timely : ℕ → RequestReader → List ℕ
timely deadline r = r.buf ++ in_time deadline r.now r.sock

-- How a read of the bytes `given` ends, where the reader could give `all`, and `soon` in time: with
-- the bytes, and the reader goes on behind them or, at the end of the stream, has them still; or with
-- a timeout, in the case `Early`.
pub data Ends (Early : Type 0) (deadline now : ℕ) (all soon given : List ℕ) : Read → Type 0 where
  goes_on :
      (r' : RequestReader)
      → given ++ pending r' ≡ all
      → given ++ timely deadline r' ≡ soon
      → r'.now ≤ max now deadline
      → Ends Early deadline now all soon given (bytes given r')
  at_end :
      (r' : RequestReader)
      → all ≡ given
      → soon ≡ given
      → rest r'.sock ≡ []
      → r'.now < deadline
      → Ends Early deadline now all soon given (bytes given r')
  too_late : Early → Ends Early deadline now all soon given timeout

abbrev pub IsUnfinished : ℕ → List ℕ → Type 0
IsUnfinished maxlen soon = (find_nl soon ≡ none) × (length soon < maxlen)

-- A line of a reader that has it in its buffer.
handed :
    (Early : Type 0) (deadline n : ℕ) (r : RequestReader) (given : List ℕ)
    → given ≡ take n r.buf
    → Ends Early deadline r.now (pending r) (timely deadline r) given (hand_out n r)
handed Early deadline n r given e =
    subst (λ g. Ends Early deadline r.now (pending r) (timely deadline r) g (hand_out n r)) (sym e)
      (goes_on (record r { buf = drop n r.buf }) (cut (rest r.sock))
        (cut (in_time deadline r.now r.sock)) (omega arith))
  where
    cut : (more : List ℕ) → take n r.buf ++ (drop n r.buf ++ more) ≡ r.buf ++ more
    cut more = rw (← append_assoc (take n r.buf) (drop n r.buf) more, take-append-drop n r.buf) refl

pub later :
    {Early : Type 0} {deadline now now' : ℕ} {all soon given : List ℕ} {o : Read}
    → now' < deadline
    → Ends Early deadline now' all soon given o
    → Ends Early deadline now all soon given o
later h (goes_on r' e e' le) = goes_on r' e e' (omega (arith, h, le))
later h (at_end r' e e' end le) = at_end r' e e' end le
later h (too_late early) = too_late early

abbrev LineEnds : ℕ → ℕ → RequestReader → Read → Type 0
LineEnds deadline maxlen r =
    Ends (IsUnfinished maxlen (timely deadline r)) deadline r.now (pending r) (timely deadline r)
      (first_line maxlen (timely deadline r))

-- With fuel above the limit, a read of a line ends with the first line of what comes in time, at most
-- the limit, however it is cut in pieces, and loses no byte; or it times out with no line there and
-- less than the limit.
pub readline-Ends :
    (fuel deadline maxlen : ℕ) (r : RequestReader)
    → maxlen < fuel + length r.buf
    → 0 < fuel
    → LineEnds deadline maxlen r (readline fuel deadline maxlen r)
unfolding readline
readline-Ends zero deadline maxlen r enough pos = absurd (omega arith)
readline-Ends (suc fuel) deadline maxlen r enough pos = elim (Option-cases (find_nl r.buf)) [
  | inr (nl, found) ↦
      rw (readline, found)
        (if_cases (LineEnds deadline maxlen r) (ltb maxlen (suc nl))
          (λ e. handed _ deadline maxlen r _ (
            first_line_far maxlen nl r.buf (in_time deadline r.now r.sock) (ground (arith, e))
              found))
          (λ e. handed _ deadline (suc nl) r _ (
            first_line_found maxlen nl r.buf (in_time deadline r.now r.sock) (ground (arith, e))
              found)))
  | inl unfound ↦ elim (Bool-cases (leb maxlen (length r.buf))) [
    | inl e ↦
        rw (readline, unfound, e)
          (handed _ deadline maxlen r _ (
            first_line_append maxlen r.buf (in_time deadline r.now r.sock) (ground (arith, e))
            ∙ first_line-take maxlen r.buf unfound))
    | inr e ↦ elim (received e) [
      | nothing o early ↦
          rw (readline, unfound, e, o)
            (too_late (rw (early, append-nil r.buf) (unfound, ground (arith, e))))
      | ended t sock' o soon before after early ↦
          rw (readline, unfound, e, o) (stopped t sock' soon unfound e before after early)
      | piece b bs t sock' o soon fits all_rest early ↦
          rw (readline, unfound, e, o)
            (carried b bs t sock' soon all_rest early (
              readline-Ends fuel deadline maxlen
                (record { buf = r.buf ++ b ∷ bs; now = t; sock = sock' })
                (omega (arith, length-append r.buf (b ∷ bs), enough)) (ground (arith, e, enough))))
    ]
  ]
]
  where
    room : leb maxlen (length r.buf) ≡ false → 0 < min 4096 (maxlen - length r.buf)
    room e = ground (arith, e)

    received :
        (e : leb maxlen (length r.buf) ≡ false)
        → Received deadline
            (min 4096 (maxlen - length r.buf))
            r.now
            r.sock
            (recv deadline (min 4096 (maxlen - length r.buf)) r.now r.sock)
    received e = recv-Received deadline (min 4096 (maxlen - length r.buf)) r.now r.sock (room e)

    stopped :
        (t : ℕ) (sock' : Sock)
        → t < deadline
        → find_nl r.buf ≡ none
        → leb maxlen (length r.buf) ≡ false
        → rest r.sock ≡ []
        → rest sock' ≡ []
        → in_time deadline r.now r.sock ≡ []
        → LineEnds deadline maxlen r
            (bytes (take maxlen r.buf) (record r { now = t; sock = sock' }))
    stopped t sock' soon unfound e before after early =
        subst
          (λ g.
            Ends (IsUnfinished maxlen (timely deadline r)) deadline r.now (pending r)
              (timely deadline r) g
              (bytes (take maxlen r.buf) (record r { now = t; sock = sock' })))
          (sym (ap (first_line maxlen) whole ∙ first_line-take maxlen r.buf unfound))
          (at_end (record r { now = t; sock = sock' })
            (ap (λ xs. r.buf ++ xs) before ∙ append-nil r.buf ∙ sym short) (whole ∙ sym short) after
            soon)
      where
        whole : timely deadline r ≡ r.buf
        whole = rw early (append-nil r.buf)

        short : take maxlen r.buf ≡ r.buf
        short = take_all maxlen r.buf (ground (arith, e))

    carried :
        (b : ℕ) (bs : List ℕ) (t : ℕ) (sock' : Sock)
        → t < deadline
        → (b ∷ bs) ++ rest sock' ≡ rest r.sock
        → (b ∷ bs) ++ in_time deadline t sock' ≡ in_time deadline r.now r.sock
        → {o : Read}
        → LineEnds deadline maxlen (record { buf = r.buf ++ b ∷ bs; now = t; sock = sock' }) o
        → LineEnds deadline maxlen r o
    carried b bs t sock' soon all_rest early {o} h =
        subst
          (λ u. Ends (IsUnfinished maxlen u) deadline r.now (pending r) u (first_line maxlen u) o)
          (append_assoc r.buf (b ∷ bs) (in_time deadline t sock') ∙ ap (λ xs. r.buf ++ xs) early)
          (subst
            (λ u.
              Ends (IsUnfinished maxlen (r.buf ++ b ∷ bs ++ in_time deadline t sock')) deadline
                r.now u (r.buf ++ b ∷ bs ++ in_time deadline t sock')
                (first_line maxlen (r.buf ++ b ∷ bs ++ in_time deadline t sock')) o)
            (append_assoc r.buf (b ∷ bs) (rest sock') ∙ ap (λ xs. r.buf ++ xs) all_rest)
            (later soon h))
