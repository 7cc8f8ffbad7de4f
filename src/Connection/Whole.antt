-- ===== src/Connection/Whole.antt =====
-- The outbound reader does what the lines of the whole stream say, however it is cut in chunks.
use mathlib.Core.List.{append_assoc, append-nil}
use lan_chat.Base.{
  ℕ, ◌≡◌, refl, sym, ◌∙◌, ap, String, Bool, true, false, List, [], ◌∷◌, ◌++◌, arith, length, ◌||◌,
  ◌==◌, ltb, str_eq, Bool-cases, inl, inr, if_cases,
}
use lan_chat.Connection.Lines.{split, split-append}
use lan_chat.Connection.Inbound.{max_frame_buf}
use lan_chat.Connection.Outbound.{
  Line, skipped, own_identity, no_object, challenge, message, Act, Outbound, on_line, on_lines,
  on_chunk, on_chunks,
}

abbrev pub concat : List (List ℕ) → List ℕ
concat [] = []
concat (c ∷ cs) = c ++ concat cs

module _ {M : Type 0} (parse : List ℕ → Line M) (pid : String) where
  -- The acts of the lines so far, and the bytes behind them, while the reader runs.
  pub record IsWhole (stream : List ℕ) (before : List (Act M)) (r : Outbound M) : Type 0 where
    pub acts : r.acts ≡ before ++ (on_lines parse pid (split stream).0).0
    pub buf : r.buf ≡ (split stream).1
    pub unraised : (on_lines parse pid (split stream).0).1 ≡ false

  on_line_append :
      (x : Line M) (o k : List (Act M) × Bool)
      → (on_line parse pid x o).1 ≡ false
      → (o.1 ≡ false)
        × (on_line parse pid x (o.0 ++ k.0, k.1) ≡ ((on_line parse pid x o).0 ++ k.0, k.1))
  on_line_append skipped o k h = (h, refl)
  on_line_append own_identity o k h = (h, refl)
  on_line_append no_object o k h = absurd (ground (arith, h))
  on_line_append (challenge nonce) o k h = elim (Bool-cases (str_eq nonce "")) [
    | inl e ↦ (h, rw e refl)
    | inr e ↦ (h, rw e refl)
  ]
  on_line_append (message m) o k h = (h, refl)

  on_lines-append :
      (ls ks : List (List ℕ))
      → (on_lines parse pid ls).1 ≡ false
      → on_lines parse pid (ls ++ ks)
        ≡ ((on_lines parse pid ls).0 ++ (on_lines parse pid ks).0, (on_lines parse pid ks).1)
  unfolding on_lines
  on_lines-append [] ks h = refl
  on_lines-append (l ∷ ls) ks h =
      let (unraised, same) =
        on_line_append (parse l) (on_lines parse pid ls) (on_lines parse pid ks) h in
      ap (on_line parse pid (parse l)) (on_lines-append ls ks unraised) ∙ same

  -- A closed reader stays closed.
  on_chunks_closed :
      (cs : List (List ℕ)) (r : Outbound M)
      → r.closed ≡ true
      → (on_chunks parse pid cs r).closed ≡ true
  unfolding on_chunks on_chunk
  on_chunks_closed [] r h = h
  on_chunks_closed (c ∷ cs) r h = on_chunks_closed cs (on_chunk parse pid c r) (
      if_cases (λ (x : Outbound M). x.closed ≡ true) r.closed (λ _. h)
        (λ e. absurd (ground (arith, e, h))))

  -- A chunk after which the reader still runs.
  on_chunk-IsWhole :
      (stream chunk : List ℕ) (before : List (Act M)) (r : Outbound M)
      → r.closed ≡ false
      → IsWhole stream before r
      → (on_chunk parse pid chunk r).closed ≡ false
      → IsWhole (stream ++ chunk) before (on_chunk parse pid chunk r)
  unfolding on_chunk
  on_chunk-IsWhole stream chunk before r runs h =
      if_cases P r.closed (λ t. absurd (ground (arith, t, runs)))
        (λ _.
          if_cases P (length chunk == 0 || ltb max_frame_buf (length (r.buf ++ chunk)))
            (λ _ e. absurd (ground (arith, e)))
            (λ _ e. record {
              acts = longer r.buf r.acts h.buf h.acts;
              buf = rw (split-append stream chunk, h.buf) refl;
              unraised = ap (λ (x : List (Act M) × Bool). x.1) (lines r.buf h.buf) ∙ e;
            }))
    where
      P : Outbound M → Type 0
      P x = x.closed ≡ false → IsWhole (stream ++ chunk) before x

      lines :
          (buf : List ℕ)
          → buf ≡ (split stream).1
          → on_lines parse pid (split (stream ++ chunk)).0 ≡ (
            (on_lines parse pid (split stream).0).0
                ++ (on_lines parse pid (split (buf ++ chunk)).0).0,
            (on_lines parse pid (split (buf ++ chunk)).0).1,
          )
      lines buf e =
          rw (split-append stream chunk, e)
            (on_lines-append (split stream).0 (split ((split stream).1 ++ chunk)).0 h.unraised)

      longer :
          (buf : List ℕ) (acts : List (Act M))
          → buf ≡ (split stream).1
          → acts ≡ before ++ (on_lines parse pid (split stream).0).0
          → acts ++ (on_lines parse pid (split (buf ++ chunk)).0).0
            ≡ before ++ (on_lines parse pid (split (stream ++ chunk)).0).0
      longer buf acts e e' =
          ap (λ xs. xs ++ (on_lines parse pid (split (buf ++ chunk)).0).0) e'
          ∙ append_assoc before (on_lines parse pid (split stream).0).0
              (on_lines parse pid (split (buf ++ chunk)).0).0
          ∙ ap (λ (x : List (Act M) × Bool). before ++ x.0) (sym (lines buf e))

  from_stream :
      (cs : List (List ℕ)) (stream : List ℕ) (before : List (Act M)) (r : Outbound M)
      → r.closed ≡ false
      → IsWhole stream before r
      → (on_chunks parse pid cs r).closed ≡ false
      → IsWhole (stream ++ concat cs) before (on_chunks parse pid cs r)
  unfolding on_chunks
  from_stream [] stream before r runs h e = rw (append-nil stream) h
  from_stream (c ∷ cs) stream before r runs h e =
      elim (Bool-cases (on_chunk parse pid c r).closed) [
        | inl t ↦ absurd (ground (arith, on_chunks_closed cs (on_chunk parse pid c r) t, e))
        | inr f ↦ rw (← append_assoc stream c (concat cs)) (
            from_stream cs (stream ++ c) before (on_chunk parse pid c r) f
              (on_chunk-IsWhole stream c before r runs h f) e)
      ]

  -- If the reader still runs after the chunks, it has done what the lines of all of them say, in their
  -- order, under the id that was dialed, and holds the bytes behind the last line.
  pub on_chunks-IsWhole :
      (cs : List (List ℕ))
      → (on_chunks parse pid cs (record { buf = []; acts = []; closed = false })).closed ≡ false
      → IsWhole
          (concat cs)
          []
          (on_chunks parse pid cs (record { buf = []; acts = []; closed = false }))
  unfolding split on_lines
  on_chunks-IsWhole cs =
      from_stream cs [] [] (record { buf = []; acts = []; closed = false }) refl
        (record { acts = refl; buf = refl; unraised = refl })
