-- ===== src/Connection/Chunks.antt =====
-- The reader does not depend on how the network cuts the stream.
use mathlib.Core.List.{append_assoc}
use lan_chat.Base.{
  ℕ, ◌≤◌, ◌≡◌, refl, sym, ap, ◌∙◌, true, false, List, [], ◌∷◌, ◌++◌, arith, length, length-append,
  ◌==◌, ◌||◌, ltb, if◌then◌else◌, if_cases, Bool-cases, inl, inr,
}
use lan_chat.Connection.Lines.{split, split-append, length-split}
use lan_chat.Connection.Inbound.{
  Session, Reader, Source, max_frame_buf, on_lines, on_line, settled, feed,
}

first_fits :
    (buf a b : List ℕ)
    → length (buf ++ (a ++ b)) ≤ max_frame_buf
    → length (buf ++ a) ≤ max_frame_buf
first_fits buf a b h =
    omega (arith, h, length-append buf (a ++ b), length-append a b, length-append buf a)

second_fits :
    (buf a b : List ℕ)
    → length (buf ++ (a ++ b)) ≤ max_frame_buf
    → length ((split (buf ++ a)).1 ++ b) ≤ max_frame_buf
second_fits buf a b h = omega (
  arith,
  h,
  length-append buf (a ++ b),
  length-append a b,
  length-append buf a,
  length-append (split (buf ++ a)).1 b,
  length-split (buf ++ a),
)

split_pieces :
    (buf a b : List ℕ)
    → split (buf ++ (a ++ b)) ≡ (
      (split (buf ++ a)).0 ++ (split ((split (buf ++ a)).1 ++ b)).0,
      (split ((split (buf ++ a)).1 ++ b)).1,
    )
split_pieces buf a b = ap split (sym (append_assoc buf a b)) ∙ split-append (buf ++ a) b

settled_closed :
    {M : Type 0} (s : Session M) (x y : List ℕ) → s.closed ≡ true → settled s x ≡ settled s y
settled_closed s x y e =
    ap (λ buf. record { buf = buf; session = s })
      (if_cases (λ z. z ≡ (if s.closed then [] else y)) s.closed (λ c. rw e refl)
        (λ c. absurd (ground (arith, c, e))))

settled_open :
    {M : Type 0} (s : Session M) (x : List ℕ)
    → s.closed ≡ false
    → settled s x ≡ record { buf = x; session = s }
settled_open s x e =
    ap (λ buf. record { buf = buf; session = s })
      (if_cases (λ z. z ≡ x) s.closed (λ c. absurd (ground (arith, c, e))) (λ c. refl))

module _ {M : Type 0} (src : Source M) where
  on_lines_closed : (ls : List (List ℕ)) (s : Session M) → s.closed ≡ true → on_lines src ls s ≡ s
  unfolding on_lines
  on_lines_closed [] s e = refl
  on_lines_closed (l ∷ ls) s e =
      if_cases (λ x. x ≡ s) s.closed (λ c. refl) (λ c. absurd (ground (arith, c, e)))

  on_lines_open :
      (l : List ℕ) (ls : List (List ℕ)) (s : Session M)
      → s.closed ≡ false
      → on_lines src (l ∷ ls) s ≡ on_lines src ls (on_line src l s)
  unfolding on_lines
  on_lines_open l ls s e =
      if_cases (λ x. x ≡ on_lines src ls (on_line src l s)) s.closed
        (λ c. absurd (ground (arith, c, e))) (λ c. refl)

  on_lines-append :
      (ls ks : List (List ℕ)) (s : Session M)
      → on_lines src (ls ++ ks) s ≡ on_lines src ks (on_lines src ls s)
  unfolding on_lines
  on_lines-append [] ks s = refl
  on_lines-append (l ∷ ls) ks s = elim (Bool-cases s.closed) [
    | inl e ↦
        on_lines_closed (l ∷ (ls ++ ks)) s e
        ∙ sym (ap (on_lines src ks) (on_lines_closed (l ∷ ls) s e) ∙ on_lines_closed ks s e)
    | inr e ↦
        on_lines_open l (ls ++ ks) s e
        ∙ on_lines-append ls ks (on_line src l s)
        ∙ ap (on_lines src ks) (sym (on_lines_open l ls s e))
  ]

  feed_closed :
      (chunk : List ℕ) (r : Reader M)
      → r.session.closed ≡ true
      → feed src chunk r ≡ settled r.session []
  unfolding feed
  feed_closed chunk r e =
      if_cases (λ x. x ≡ settled r.session []) r.session.closed (λ c. refl)
        (λ c. absurd (ground (arith, c, e)))

  feed_open :
      (chunk : List ℕ) (r : Reader M)
      → r.session.closed ≡ false
      → 1 ≤ length chunk
      → length (r.buf ++ chunk) ≤ max_frame_buf
      → feed src chunk r
        ≡ settled (on_lines src (split (r.buf ++ chunk)).0 r.session) (split (r.buf ++ chunk)).1
  unfolding feed
  feed_open chunk r e n h =
      let Done : Reader M → Type 0 = λ x.
        x
        ≡ settled (on_lines src (split (r.buf ++ chunk)).0 r.session) (split (r.buf ++ chunk)).1 in
      if_cases Done r.session.closed (λ c. absurd (ground (arith, c, e)))
        (λ c.
          if_cases Done (length chunk == 0 || ltb max_frame_buf (length (r.buf ++ chunk)))
            (λ d. absurd (ground (arith, d, n, h))) (λ d. refl))

  -- A piece after others that did not fill the buffer.
  second :
      (b : List ℕ) (s : Session M) (rest : List ℕ)
      → 1 ≤ length b
      → length (rest ++ b) ≤ max_frame_buf
      → feed src b (settled s rest)
        ≡ settled (on_lines src (split (rest ++ b)).0 s) (split (rest ++ b)).1
  second b s rest n h = elim (Bool-cases s.closed) [
    | inl e ↦
        feed_closed b (settled s rest) e
        ∙ settled_closed s [] (split (rest ++ b)).1 e
        ∙ ap (λ x. settled x (split (rest ++ b)).1)
            (sym (on_lines_closed (split (rest ++ b)).0 s e))
    | inr e ↦
        ap (feed src b) (settled_open s rest e)
        ∙ feed_open b (record { buf = rest; session = s }) e n h
  ]

  -- A chunk that comes in two pieces, neither of them empty, has the same effect as the whole, as long as the bytes that wait
  -- for a line feed and the chunk do not pass the limit of the buffer together.
  pub feed-append :
      (a b : List ℕ) (r : Reader M)
      → 1 ≤ length a
      → 1 ≤ length b
      → length (r.buf ++ (a ++ b)) ≤ max_frame_buf
      → feed src (a ++ b) r ≡ feed src b (feed src a r)
  feed-append a b r n n' h = elim (Bool-cases r.session.closed) [
    | inl e ↦
        feed_closed (a ++ b) r e
        ∙ sym (ap (feed src b) (feed_closed a r e) ∙ feed_closed b (settled r.session []) e)
    | inr e ↦
        let s1 = on_lines src (split (r.buf ++ a)).0 r.session in
        let fits : length (r.buf ++ a) ≤ max_frame_buf = first_fits r.buf a b h in
        feed_open (a ++ b) r e (omega (arith, length-append a b, n)) h
        ∙ ap (λ o. settled (on_lines src o.0 r.session) o.1) (split_pieces r.buf a b)
        ∙ ap (λ x. settled x (split ((split (r.buf ++ a)).1 ++ b)).1)
            (on_lines-append (split (r.buf ++ a)).0 (split ((split (r.buf ++ a)).1 ++ b)).0
              r.session)
        ∙ sym (
            ap (feed src b) (feed_open a r e n fits)
            ∙ second b s1 (split (r.buf ++ a)).1 n' (second_fits r.buf a b h))
  ]
