-- ===== src/History/Blob.antt =====
-- `_history_encrypt` and `_history_decrypt`: the encrypted form of the file.
use lan_chat.Base.{
  ℕ, ◌+◌, ◌<◌, String, ◌≡◌, refl, Bool, true, false, Option, none, some, List, [], ◌∷◌, ◌++◌, arith,
  length, take, drop, take_append, drop_append, ltb, ◌==◌, ◌||◌, not, length-append, if◌then◌else◌,
  Bool-cases, lt→ltb, inl, inr,
}
use lan_chat.History.Types.{Library, IsFaithful}

-- b"LANCHIST1"
abbrev pub history_magic : List ℕ
history_magic = b'L' ∷ b'A' ∷ b'N' ∷ b'C' ∷ b'H' ∷ b'I' ∷ b'S' ∷ b'T' ∷ b'1' ∷ []

abbrev pub same_bytes : List ℕ → List ℕ → Bool
same_bytes [] [] = true
same_bytes (x ∷ xs) (y ∷ ys) = let rest = same_bytes xs ys in if x == y then rest else false
same_bytes _ _ = false

same_bytes-eq : (xs ys : List ℕ) → same_bytes xs ys ≡ true → xs ≡ ys
same_bytes-eq [] [] h = refl
same_bytes-eq [] (y ∷ ys) h = cc
same_bytes-eq (x ∷ xs) [] h = cc
same_bytes-eq (x ∷ xs) (y ∷ ys) h = ground (arith, same_bytes-eq xs ys)

module _ (lib : Library) (key : List ℕ) where
  unfoldable pub history_encrypt : List ℕ → List ℕ → String
  history_encrypt nonce plain =
      lib.b64encode (history_magic ++ (nonce ++ lib.encrypt key nonce plain))

  -- `none` is the exception.
  unfoldable pub history_decrypt : String → Option (List ℕ)
  history_decrypt b64 = elim (lib.b64decode b64) [
    | none ↦ none
    | some raw ↦
        if not (same_bytes (take 9 raw) history_magic) || ltb (length raw) (9 + 12 + 16)
        then none
        else lib.decrypt key (take 12 (drop 9 raw)) (drop 21 raw)
  ]

-- What was encrypted under a key and a nonce of twelve bytes is decrypted to the same bytes.
pub history_decrypt-history_encrypt :
    (lib : Library) (key nonce plain : List ℕ)
    → IsFaithful lib
    → length nonce ≡ 12
    → history_decrypt lib key (history_encrypt lib key nonce plain) ≡ some plain
unfolding history_decrypt history_encrypt
history_decrypt-history_encrypt lib key nonce plain law n =
    let ct = lib.encrypt key nonce plain in
    let long : ltb (length (history_magic ++ (nonce ++ ct))) 37 ≡ false =
      ground (arith, length-append nonce ct, law.tag key nonce plain, n) in
    rw
      (
        history_decrypt,
        law.b64decode-b64encode (history_magic ++ (nonce ++ ct)),
        take_append 12 nonce ct n,
      )
      (rw (long, drop_append 12 nonce ct n) (law.decrypt-encrypt key nonce plain))

-- A text that is not base64, does not carry the magic prefix or is too short for a nonce and a tag
-- is never decrypted.
pub history_decrypt-none :
    (lib : Library) (key : List ℕ) (b64 : String) (raw : List ℕ)
    → lib.b64decode b64 ≡ some raw
    → ((take 9 raw ≡ history_magic) → length raw < 37)
    → history_decrypt lib key b64 ≡ none
unfolding history_decrypt
history_decrypt-none lib key b64 raw e h =
    elim (Bool-cases (same_bytes (take 9 raw) history_magic)) [
      | inl magic ↦
          let short : ltb (length raw) 37 ≡ true =
            lt→ltb (length raw) 37 (h (same_bytes-eq (take 9 raw) history_magic magic)) in
          rw (history_decrypt, e, magic, short)
      | inr foreign ↦ rw (history_decrypt, e, foreign)
    ]
