-- ===== src/Http/File.antt =====
-- The body of `/attachment`: a file in chunks, until the size that was announced is reached.
use mathlib.Core.List.{append_assoc}
use lan_chat.Base.{
  ℕ, zero, suc, ◌+◌, ◌-◌, ◌≤◌, ◌<◌, ◌≡◌, refl, ◌∙◌, ap, ◌⊎◌, inl, inr, List, [], ◌∷◌, ◌++◌, arith,
  length, take, drop, take-append-drop, length-append, length-take,
}

abbrev pub att_http_chunk : ℕ
att_http_chunk = 65536

-- `size` bytes are still to be sent of what the file has from here on.
unfoldable pub stream_loop : ℕ → ℕ → ℕ → List ℕ → List ℕ
stream_loop chunk zero size content = []
stream_loop chunk (suc fuel) zero content = []
stream_loop chunk (suc fuel) (suc size) [] = []
stream_loop chunk (suc fuel) (suc size) (b ∷ bs) =
    take chunk (b ∷ bs)
    ++ stream_loop chunk fuel (suc size - length (take chunk (b ∷ bs))) (drop chunk (b ∷ bs))

unfoldable pub stream_file : ℕ → List ℕ → List ℕ
unfolding stream_loop
stream_file size content = stream_loop att_http_chunk (size + 1) size content

-- What is sent of a file, where `size` was announced: a part from its start, all of it or no less than
-- the size, and less than a chunk more.
pub record IsBody (chunk size : ℕ) (content sent : List ℕ) : Type 0 where
  pub unsent : List ℕ
  pub whole : sent ++ unsent ≡ content
  pub enough : (unsent ≡ []) ⊎ (size ≤ length sent)
  pub bound : length sent < size + chunk
  pub stops : size ≡ 0 → length sent ≡ 0

joined :
    (chunk size : ℕ) (content sent : List ℕ)
    → 0 < chunk
    → length (take chunk content) ≤ chunk
    → IsBody chunk (suc size - length (take chunk content)) (drop chunk content) sent
    → IsBody chunk (suc size) content (take chunk content ++ sent)
joined chunk size content sent pos few rest = record {
  unsent = rest.unsent;
  whole =
      append_assoc (take chunk content) sent rest.unsent
      ∙ ap (λ xs. take chunk content ++ xs) rest.whole
      ∙ take-append-drop chunk content;
  enough = elim rest.enough [
    | inl e ↦ inl e
    | inr le ↦ inr (omega (arith, le, length-append (take chunk content) sent))
  ];
  bound = ground (arith, length-append (take chunk content) sent, few, rest.bound, rest.stops, pos);
  stops = λ e. absurd (omega (arith, e));
}

stream_loop-IsBody :
    (chunk fuel size : ℕ) (content : List ℕ)
    → 0 < chunk
    → size < fuel
    → IsBody chunk size content (stream_loop chunk fuel size content)
unfolding stream_loop
stream_loop-IsBody chunk zero size content pos h = absurd (omega arith)
stream_loop-IsBody chunk (suc fuel) zero content pos h = record {
  unsent = content;
  whole = refl;
  enough = inr (omega arith);
  bound = omega arith;
  stops = λ e. omega arith;
}
stream_loop-IsBody chunk (suc fuel) (suc size) [] pos h = record {
  unsent = [];
  whole = refl;
  enough = inl refl;
  bound = omega arith;
  stops = λ e. omega arith;
}
stream_loop-IsBody chunk (suc fuel) (suc size) (b ∷ bs) pos h =
    joined chunk size (b ∷ bs) _ pos (omega (arith, length-take chunk (b ∷ bs)))
      (stream_loop-IsBody chunk fuel _ _ pos (omega (arith, length-take chunk (b ∷ bs), pos, h)))

pub stream_file-IsBody :
    (size : ℕ) (content : List ℕ) → IsBody att_http_chunk size content (stream_file size content)
unfolding stream_file
stream_file-IsBody size content =
    stream_loop-IsBody att_http_chunk (size + 1) size content (omega arith) (omega arith)
