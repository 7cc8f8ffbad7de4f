-- ===== src/Rooms/Store.antt =====
-- The encrypted files of rooms.py: `_rooms_key`, `_rooms_encrypt`, `_rooms_decrypt`, `_load_store` and
-- `_save_store`.
use lan_chat.Base.{
  ℕ, ◌+◌, String, Bool, Option, none, some, List, [], ◌∷◌, ◌++◌, length, take, drop, ltb, ◌==◌,
  ◌||◌, not, if◌then◌else◌,
}
use lan_chat.Dict.{Dict}
use lan_chat.History.Blob.{same_bytes}
use lan_chat.Rooms.Types.{Room}

-- b"LANCHROOM1"
abbrev pub rooms_magic : List ℕ
rooms_magic = b'L' ∷ b'A' ∷ b'N' ∷ b'C' ∷ b'H' ∷ b'R' ∷ b'O' ∷ b'O' ∷ b'M' ∷ b'1' ∷ []

-- What `json.loads` returns.
pub data Stored : Type 0 where
  rooms : Dict Room → Stored
  no_dict : Stored

-- The calls of json, the text codec, base64 and AES-GCM; `none` is an exception.
pub record Codec : Type 0 where
  pub dumps : Dict Room → String
  pub loads : String → Option Stored
  pub encode : String → List ℕ
  pub decode : List ℕ → Option String
  pub b64encode : List ℕ → String
  pub b64decode : String → Option (List ℕ)
  pub encrypt : List ℕ → List ℕ → List ℕ → List ℕ
  pub decrypt : List ℕ → List ℕ → List ℕ → Option (List ℕ)

-- The key and the key file after the call: a file of another length is replaced.
unfoldable pub rooms_key : Option (List ℕ) → List ℕ → List ℕ × Option (List ℕ)
rooms_key none fresh = (fresh, some fresh)
rooms_key (some k) fresh = if length k == 32 then (k, some k) else (fresh, some fresh)

module _ (lib : Codec) (crypto : Bool) where
  abbrev pub sealed : List ℕ → List ℕ → List ℕ → List ℕ
  sealed key nonce plain = rooms_magic ++ (nonce ++ lib.encrypt key nonce plain)

  -- Without the cryptography library the text itself is written.
  unfoldable pub save_store : List ℕ → List ℕ → Dict Room → String
  save_store key nonce store =
      if crypto
      then lib.b64encode (sealed key nonce (lib.encode (lib.dumps store)))
      else lib.dumps store

  unfoldable pub rooms_decrypt : List ℕ → String → Option (List ℕ)
  rooms_decrypt key b64 =
      let opened : Option (List ℕ) = elim (lib.b64decode b64) [
        | none ↦ none
        | some raw ↦
            if not (same_bytes (take 10 raw) rooms_magic) || ltb (length raw) (10 + 12 + 16)
            then none
            else lib.decrypt key (take 12 (drop 10 raw)) (drop 22 raw)
      ] in
      if crypto then opened else some (lib.encode b64)

  abbrev pub as_store : Option Stored → Dict Room
  as_store (some (rooms store)) = store
  as_store _ = []

  unfoldable pub reopened : Option (List ℕ) → Dict Room
  reopened none = []
  reopened (some plain) = elim (lib.decode plain) [
    | none ↦ []
    | some json ↦ as_store (lib.loads json)
  ]

  -- `file` is none where the file is missing or cannot be read.
  unfoldable pub load_store : List ℕ → Option String → Dict Room
  unfolding rooms_decrypt
  load_store key none = []
  load_store key (some raw) = elim (lib.loads raw) [
    | some (rooms store) ↦ store
    | _ ↦ reopened (rooms_decrypt key raw)
  ]
