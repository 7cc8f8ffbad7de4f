-- ===== src/Serving/Stream.antt =====
-- `_serve_attachment`: the frames that the sender hands to the socket.
use lan_chat.Base.{
  ℕ, zero, suc, ◌≤◌, ◌<◌, String, ◌≡◌, refl, ap, ◌∙◌, Bool, true, Option, none, some, List, [], ◌∷◌,
  ◌++◌, arith, length, take, drop, take-append-drop, length-take, length-drop, if◌then◌else◌,
}
use lan_chat.Dict.{Dict}
use lan_chat.Download.Types.{att_chunk_raw}
use lan_chat.Serving.Register.{Offer, get_attachment}

-- The fields that differ between the frames: the number, the total and the bytes of a chunk; the total
-- and the digest of an end; the reason of an error.
pub data Frame : Type 0 where
  attachment_chunk : ℕ → ℕ → List ℕ → Frame
  attachment_end : ℕ → String → Frame
  attachment_error : String → Frame

-- What the file system answers: the size, or none; and the bytes read from the file, or none and the
-- reason where it cannot be opened. A read of an open file succeeds.
pub record Source : Type 0 where
  pub size : Option ℕ
  pub bytes : Option (List ℕ)
  pub reason : String

-- The bytes of the chunks.
unfoldable pub payload : List Frame → List ℕ
payload [] = []
payload (attachment_chunk seq total piece ∷ fs) = piece ++ payload fs
payload (_ ∷ fs) = payload fs

-- Chunks numbered from `seq`, none empty or over the size of a chunk, each with the total, then the
-- end with the total and the digest.
unfoldable pub IsStream : ℕ → ℕ → String → List Frame → Type 0
IsStream size seq digest [] = ⊥
IsStream size seq digest (attachment_chunk n total piece ∷ fs) =
    (n ≡ seq)
    × (total ≡ size)
    × (1 ≤ length piece)
    × (length piece ≤ att_chunk_raw)
    × IsStream size (suc seq) digest fs
IsStream size seq digest (attachment_end total sha ∷ fs) =
    (total ≡ size) × (sha ≡ digest) × (fs ≡ [])
IsStream size seq digest (attachment_error e ∷ fs) = ⊥

module _ (hexdigest : List ℕ → String) (sends : ℕ → Bool) where
  -- `sends seq` tells whether the frame of that number goes out. `rest` is what is left of the file and
  -- bounds the rounds; `all` is the whole file.
  unfoldable pub stream : ℕ → List ℕ → List ℕ → ℕ → ℕ → List Frame
  stream size all rest zero seq = []
  stream size all [] (suc fuel) seq = attachment_end size (hexdigest all) ∷ []
  stream size all (x ∷ rest) (suc fuel) seq =
      let more = stream size all (drop att_chunk_raw (x ∷ rest)) fuel (suc seq) in
      attachment_chunk seq size (take att_chunk_raw (x ∷ rest)) ∷ (if sends seq then more else [])

  unfoldable pub serve_attachment : ℕ → String → Dict Offer → (String → Source) → List Frame
  unfolding get_attachment stream
  serve_attachment now file_id offers file = elim (get_attachment now file_id offers) [
    | none ↦ attachment_error "not found" ∷ []
    | some a ↦ elim (file a.path).size [
      | none ↦ attachment_error "file missing" ∷ []
      | some size ↦ elim (file a.path).bytes [
        | none ↦ attachment_error (file a.path).reason ∷ []
        | some all ↦ stream size all all (suc (length all)) 0
      ]
    ]
  ]

  stream-IsStream :
      (size : ℕ) (all rest : List ℕ) (fuel seq : ℕ)
      → ((n : ℕ) → sends n ≡ true)
      → length rest < fuel
      → (payload (stream size all rest fuel seq) ≡ rest)
        × IsStream size seq (hexdigest all) (stream size all rest fuel seq)
  unfolding stream payload IsStream
  stream-IsStream size all rest zero seq h k = absurd (omega arith)
  stream-IsStream size all [] (suc fuel) seq h k = (refl, (refl, refl, refl))
  stream-IsStream size all (x ∷ rest) (suc fuel) seq h k =
      let shorter : length (drop att_chunk_raw (x ∷ rest)) < fuel =
        omega (arith, length-drop att_chunk_raw (x ∷ rest)) in
      let more =
        stream-IsStream size all (drop att_chunk_raw (x ∷ rest)) fuel (suc seq) h shorter in
      let short = length-take att_chunk_raw (x ∷ rest) in
      rw (h seq) (
        ap (λ r. take att_chunk_raw (x ∷ rest) ++ r) more.0
            ∙ take-append-drop att_chunk_raw (x ∷ rest),
        (refl, refl, omega (arith, short), omega (arith, short), more.1),
      )

  -- If every frame goes out, the frames for an offered file that can be read are chunks numbered from 0,
  -- none empty or over 128 KiB, that together are the bytes of the file in order, and then the end with
  -- the digest of these bytes; each carries the size of the file.
  pub serve_attachment-IsStream :
      (now size : ℕ) (file_id : String) (offers : Dict Offer) (file : String → Source) (a : Offer)
      (all : List ℕ)
      → get_attachment now file_id offers ≡ some a
      → (file a.path).size ≡ some size
      → (file a.path).bytes ≡ some all
      → ((n : ℕ) → sends n ≡ true)
      → (payload (serve_attachment now file_id offers file) ≡ all)
        × IsStream size 0 (hexdigest all) (serve_attachment now file_id offers file)
  unfolding serve_attachment
  serve_attachment-IsStream now size file_id offers file a all e f g h =
      rw (serve_attachment, e, f, g)
        (stream-IsStream size all all (suc (length all)) 0 h (omega arith))
