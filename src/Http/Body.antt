-- ===== src/Http/Body.antt =====
-- `read(n)` gives the first bytes of what comes in time, however it is cut in pieces.
use mathlib.Core.Path.{subst}
use mathlib.Core.List.{append_assoc, append-nil}
use lan_chat.Base.{
  ℕ, zero, suc, ◌+◌, ◌-◌, ◌≤◌, ◌<◌, ◌≡◌, refl, sym, ◌∙◌, ap, min, List, [], ◌∷◌, ◌++◌, true, arith,
  ltb, length, take, drop, length-append, length-take, take-append-drop, take_all, take_append,
  Bool-cases, inl, inr,
}
use lan_chat.Http.Reader.{Sock, RequestReader, Read, bytes, recv, read}
use lan_chat.Http.Stream.{rest, in_time, Received, nothing, ended, piece, recv-Received}
use lan_chat.Http.Lines.{pending, timely, Ends, goes_on, at_end, too_late, later}

-- A read that has `out` so far.
abbrev BodyEnds : ℕ → ℕ → List ℕ → RequestReader → Read → Type 0
BodyEnds deadline n out r =
    Ends (length (out ++ timely deadline r) < n) deadline r.now (out ++ pending r)
      (out ++ timely deadline r) (take n (out ++ timely deadline r))

-- The end of a read from one that has more bytes of the same stream.
carried :
    (deadline n now now' : ℕ) (out out' : List ℕ) (buf buf' : List ℕ) (sock sock' : Sock)
    → out' ++ (buf' ++ rest sock') ≡ out ++ (buf ++ rest sock)
    → out' ++ (buf' ++ in_time deadline now' sock') ≡ out ++ (buf ++ in_time deadline now sock)
    → {o : Read}
    → Ends
        (length (out' ++ (buf' ++ in_time deadline now' sock')) < n)
        deadline
        now
        (out' ++ (buf' ++ rest sock'))
        (out' ++ (buf' ++ in_time deadline now' sock'))
        (take n (out' ++ (buf' ++ in_time deadline now' sock')))
        o
    → BodyEnds deadline n out (record { buf = buf; now = now; sock = sock }) o
carried deadline n now now' out out' buf buf' sock sock' e e' {o} h =
    subst (λ u. Ends (length u < n) deadline now (out ++ (buf ++ rest sock)) u (take n u) o) e'
      (subst
        (λ u.
          Ends (length (out' ++ (buf' ++ in_time deadline now' sock')) < n) deadline now u
            (out' ++ (buf' ++ in_time deadline now' sock'))
            (take n (out' ++ (buf' ++ in_time deadline now' sock'))) o)
        e h)

full :
    (deadline n : ℕ) (out : List ℕ) (r : RequestReader)
    → length out ≡ n
    → BodyEnds deadline n out r (bytes out r)
full deadline n out r e =
    subst
      (λ g.
        Ends (length (out ++ timely deadline r) < n) deadline r.now (out ++ pending r)
          (out ++ timely deadline r) g (bytes out r))
      (sym (take_append n out (timely deadline r) e)) (goes_on r refl refl (omega arith))

stopped :
    (deadline n : ℕ) (out : List ℕ) (now t : ℕ) (sock sock' : Sock)
    → length out ≤ n
    → t < deadline
    → rest sock ≡ []
    → rest sock' ≡ []
    → in_time deadline now sock ≡ []
    → BodyEnds deadline n out
        (record { buf = []; now = now; sock = sock })
        (bytes out (record { buf = []; now = t; sock = sock' }))
stopped deadline n out now t sock sock' le soon before after early =
    subst
      (λ g.
        Ends (length (out ++ in_time deadline now sock) < n) deadline now (out ++ rest sock)
          (out ++ in_time deadline now sock) g
          (bytes out (record { buf = []; now = t; sock = sock' })))
      (sym given)
      (at_end (record { buf = []; now = t; sock = sock' })
        (ap (λ xs. out ++ xs) before ∙ append-nil out) whole after soon)
  where
    whole : out ++ in_time deadline now sock ≡ out
    whole = ap (λ xs. out ++ xs) early ∙ append-nil out

    given : take n (out ++ in_time deadline now sock) ≡ out
    given = ap (take n) whole ∙ take_all n out le

-- With fuel above the length, a read of a body ends with the first bytes of what comes in time, however
-- it is cut in pieces, and leaves the others; or it times out with fewer than the length.
pub read-Ends :
    (fuel deadline n : ℕ) (out buf : List ℕ) (now : ℕ) (sock : Sock)
    → n < fuel + length out
    → length out ≤ n
    → BodyEnds deadline n out
        (record { buf = buf; now = now; sock = sock })
        (read fuel deadline n out (record { buf = buf; now = now; sock = sock }))
unfolding read
read-Ends zero deadline n out buf now sock enough le = absurd (omega arith)
read-Ends (suc fuel) deadline n out [] now sock enough le = elim (Bool-cases (ltb (length out) n)) [
  | inr e ↦
      rw (read, e)
        (full deadline n out (record { buf = []; now = now; sock = sock }) (ground (arith, e, le)))
  | inl e ↦ elim (received e) [
    | nothing o early ↦ rw (read, e, o) (too_late (rw (early, append-nil out) (ground (arith, e))))
    | ended t sock' o soon before after early ↦
        rw (read, e, o) (stopped deadline n out now t sock sock' le soon before after early)
    | piece b bs t sock' o soon fits all_rest early ↦
        rw (read, e, o)
          (carried deadline n now t out (out ++ b ∷ bs) [] [] sock sock'
            (append_assoc out (b ∷ bs) (rest sock') ∙ ap (λ xs. out ++ xs) all_rest)
            (append_assoc out (b ∷ bs) (in_time deadline t sock') ∙ ap (λ xs. out ++ xs) early)
            (later soon (
              read-Ends fuel deadline n (out ++ b ∷ bs) [] t sock'
                (omega (arith, length-append out (b ∷ bs), enough))
                (ground (arith, length-append out (b ∷ bs), fits, e)))))
  ]
]
  where
    received :
        (e : ltb (length out) n ≡ true)
        → Received deadline
            (min (n - length out) 4096)
            now
            sock
            (recv deadline (min (n - length out) 4096) now sock)
    received e = recv-Received deadline (min (n - length out) 4096) now sock (ground (arith, e))
read-Ends (suc fuel) deadline n out (b ∷ bs) now sock enough le =
    elim (Bool-cases (ltb (length out) n)) [
      | inr e ↦
          rw (read, e)
            (full deadline n out (record { buf = b ∷ bs; now = now; sock = sock })
              (ground (arith, e, le)))
      | inl e ↦
          rw (read, e)
            (carried deadline n now now out (out ++ take (n - length out) (b ∷ bs)) (b ∷ bs)
              (drop (n - length out) (b ∷ bs)) sock sock (cut (rest sock))
              (cut (in_time deadline now sock))
              (read-Ends fuel deadline n (out ++ take (n - length out) (b ∷ bs))
                (drop (n - length out) (b ∷ bs)) now sock
                (ground (
                  arith,
                  length-append out (take (n - length out) (b ∷ bs)),
                  length-take (n - length out) (b ∷ bs),
                  enough,
                  e,
                ))
                (ground (
                  arith,
                  length-append out (take (n - length out) (b ∷ bs)),
                  length-take (n - length out) (b ∷ bs),
                  le,
                ))))
    ]
  where
    cut :
        (more : List ℕ)
        → out ++ take (n - length out) (b ∷ bs) ++ (drop (n - length out) (b ∷ bs) ++ more)
          ≡ out ++ ((b ∷ bs) ++ more)
    cut more =
        append_assoc out (take (n - length out) (b ∷ bs)) (drop (n - length out) (b ∷ bs) ++ more)
        ∙ ap (λ xs. out ++ xs)
            (sym (
                append_assoc (take (n - length out) (b ∷ bs)) (drop (n - length out) (b ∷ bs)) more)
              ∙ ap (λ xs. xs ++ more) (take-append-drop (n - length out) (b ∷ bs)))
