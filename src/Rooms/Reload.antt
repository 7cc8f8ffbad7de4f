-- ===== src/Rooms/Reload.antt =====
-- The rooms of rooms.py over a restart.
use lan_chat.Base.{
  ◌⊎◌, ℕ, ◌≤◌, ◌≡◌, refl, Bool, true, false, Option, none, some, List, ◌++◌, arith, length,
  take_append, drop_append, length-append, ltb, ◌==◌, Bool-cases, inl, inr,
}
use lan_chat.Dict.{Dict}
use lan_chat.Rooms.Types.{Room}
use lan_chat.Rooms.Store.{
  rooms, no_dict, Codec, rooms_magic, rooms_key, sealed, save_store, rooms_decrypt, reopened,
  load_store,
}

-- The documented behaviour of the libraries at a store, a key and a nonce: each decoder undoes its encoder,
-- the ciphertext carries a tag of 16 bytes, and what base64 gives is no JSON object.
pub record IsFaithfulAt (lib : Codec) (key nonce : List ℕ) (store : Dict Room) : Type 0 where
  pub loads-dumps : lib.loads (lib.dumps store) ≡ some (rooms store)
  pub decode-encode : lib.decode (lib.encode (lib.dumps store)) ≡ some (lib.dumps store)
  pub decrypt-encrypt :
      lib.decrypt key nonce (lib.encrypt key nonce (lib.encode (lib.dumps store)))
      ≡ some (lib.encode (lib.dumps store))
  pub tag : 16 ≤ length (lib.encrypt key nonce (lib.encode (lib.dumps store)))
  pub b64decode-b64encode :
      let bytes = rooms_magic ++ (nonce ++ lib.encrypt key nonce (lib.encode (lib.dumps store))) in
      (lib.b64decode (lib.b64encode bytes) ≡ some bytes)
      × ((lib.loads (lib.b64encode bytes) ≡ none)
          ⊎ (lib.loads (lib.b64encode bytes) ≡ some no_dict))

-- The key of a first call is that of every later one.
pub rooms_key-rooms_key :
    (file : Option (List ℕ)) (fresh fresh' : List ℕ)
    → length fresh ≡ 32
    → rooms_key (rooms_key file fresh).1 fresh'
      ≡ ((rooms_key file fresh).0, (rooms_key file fresh).1)
unfolding rooms_key
rooms_key-rooms_key none fresh fresh' h = ground (arith, h)
rooms_key-rooms_key (some k) fresh fresh' h = elim (Bool-cases (length k == 32)) [
  | inl e ↦ rw (rooms_key, e) (rw (rooms_key, e) refl)
  | inr e ↦ rw (rooms_key, e) (ground (arith, h))
]

rooms_decrypt-sealed :
    (lib : Codec) (key nonce : List ℕ) (store : Dict Room)
    → IsFaithfulAt lib key nonce store
    → length nonce ≡ 12
    → rooms_decrypt lib true key
        (lib.b64encode (sealed lib true key nonce (lib.encode (lib.dumps store))))
      ≡ some (lib.encode (lib.dumps store))
unfolding rooms_decrypt
rooms_decrypt-sealed lib key nonce store law n =
    let ct = lib.encrypt key nonce (lib.encode (lib.dumps store)) in
    let long : ltb (length (rooms_magic ++ (nonce ++ ct))) 38 ≡ false =
      ground (arith, length-append nonce ct, law.tag, n) in
    rw (rooms_decrypt, law.b64decode-b64encode.0, take_append 12 nonce ct n)
      (rw (long, drop_append 12 nonce ct n) law.decrypt-encrypt)

load-save :
    (lib : Codec) (crypto : Bool) (key nonce : List ℕ) (store : Dict Room)
    → IsFaithfulAt lib key nonce store
    → length nonce ≡ 12
    → load_store lib crypto key (some (save_store lib crypto key nonce store)) ≡ store
unfolding load_store save_store reopened
load-save lib false key nonce store law n = rw (load_store, save_store, law.loads-dumps) refl
load-save lib true key nonce store law n =
    let opened = rooms_decrypt-sealed lib key nonce store law n in
    let read : reopened lib true (some (lib.encode (lib.dumps store))) ≡ store =
      rw (reopened, law.decode-encode) (rw law.loads-dumps refl) in
    elim law.b64decode-b64encode.1 [
      | inl e ↦ rw (load_store, save_store, e) (rw (opened) read)
      | inr e ↦ rw (load_store, save_store, e) (rw (opened) read)
    ]

-- Where the libraries behave as documented at the store saved, its key and its nonce, and a new key has 32
-- bytes and a nonce 12, a restart finds the rooms as they were saved, whether or not there was a key file, and with or without the encryption.
pub load_store-save_store :
    (lib : Codec) (crypto : Bool) (file : Option (List ℕ)) (fresh fresh' nonce : List ℕ)
    (store : Dict Room)
    → length fresh ≡ 32
    → length nonce ≡ 12
    → IsFaithfulAt lib (rooms_key file fresh).0 nonce store
    → load_store lib crypto
        (rooms_key (rooms_key file fresh).1 fresh').0
        (some (save_store lib crypto (rooms_key file fresh).0 nonce store))
      ≡ store
load_store-save_store lib crypto file fresh fresh' nonce store h n law =
    rw (rooms_key-rooms_key file fresh fresh' h)
      (load-save lib crypto (rooms_key file fresh).0 nonce store law n)
