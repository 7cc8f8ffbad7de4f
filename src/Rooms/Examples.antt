-- ===== src/Rooms/Examples.antt =====
-- Tests of the rooms.
use lan_chat.Base.{
  ℕ, ◌≤◌, String, ◌≡◌, ◌≢◌, ◌⊎◌, refl, true, false, none, some, inl, if◌then◌else◌, ◌++◌, arith,
  str_eq, List, [], ◌∷◌, ne_of_str_eq, All, map,
}
use lan_chat.Dict.{lookup, insert, has, lookup-insert_self}
use lan_chat.Rooms.Types.{Room, Rooms, room_remove, room_add, Env, envelope}
use lan_chat.Rooms.Owner.{new_member, wire_room}
use lan_chat.Rooms.Handle.{handle_room_msg}
use lan_chat.Rooms.Command.{Event, command, message, restart, step, run, kick, colors}
use lan_chat.Rooms.Commands.{IsOwn, IsSound}
use lan_chat.Rooms.Soundness.{Each-insert, run-IsSound}
use lan_chat.Rooms.Refinement.{Advances, step-Advances}
use lan_chat.Rooms.Roster.{IsOutOf, kicked_stays_out}
use lan_chat.Rooms.Authority.{handle_room_msg-foreign}
use lan_chat.Rooms.Store.{rooms, Codec, rooms_magic, rooms_key, save_store, load_store}
use lan_chat.Rooms.Reload.{load_store-save_store}
use lan_chat.Rooms.Sync.{Among, Follows, deliver, deliver-Follows}

abbrev env_of : String → Env
env_of host = record {
  host_id = host;
  display_name = host;
  peer_name = λ pid. pid;
  is_trusted = λ pid. true;
  sends = λ pid. true;
  strip = λ text. text;
  now = 7;
  fresh = "f1";
}

abbrev ann : Env
ann = env_of "ann"

abbrev bob : Env
bob = env_of "bob"

abbrev den : Room
den = record {
  room_id = "r1";
  name = "den";
  owner = "ann";
  created = 1;
  seq = 3;
  colors_enabled = true;
  members = ("ann", new_member "Ann" true) ∷ ("bob", new_member "Bob" false) ∷ [];
  invited = [];
}

-- Ann owns the den, Bob has a copy of it.
abbrev anns : Rooms
anns = record {
  rooms = insert "r1" den [];
  rooms_cache = [];
  rooms_file = insert "r1" den [];
  cache_file = [];
}

abbrev bobs : Rooms
bobs = record {
  rooms = [];
  rooms_cache = insert "r1" den [];
  rooms_file = [];
  cache_file = insert "r1" den [];
}

anns-IsSound : IsSound "ann" anns
unfolding lookup has
anns-IsSound = record {
  own =
      Each-insert (IsOwn "ann") "r1" den [] (record { id = refl; owned_here = refl; inside = refl })
        (λ k r e. absurd (cc));
  copies = λ k r e. absurd (cc);
  saved = refl;
  saved_copies = λ k r e. absurd (cc);
}

abbrev events : List Event
events =
    command ann (colors "r1" false)
    ∷ message ann (record (envelope bob room_remove "r1") { peer = "ann" }) "bob"
    ∷ restart
    ∷ []

run-IsSound_example : IsSound "ann" (run events anns)
run-IsSound_example = run-IsSound "ann" events anns (refl, (refl, (tt, tt))) anns-IsSound

step-Advances_example :
    Advances
      (command ann (kick "r1" "bob"))
      "r1"
      den
      (step (command ann (kick "r1" "bob")) anns).rooms
step-Advances_example =
    step-Advances "ann" (command ann (kick "r1" "bob")) "r1" den anns anns-IsSound refl
      (lookup-insert_self "r1" den [])

bob_inside : has "bob" den.members ≡ true
unfolding has
bob_inside = refl

bob_not_ann : bob.host_id ≢ ann.host_id
bob_not_ann = ne_of_str_eq "bob" "ann" refl

kicked_stays_out_example :
    IsOutOf "bob" "r1" (run events (step (command ann (kick "r1" "bob")) anns))
kicked_stays_out_example =
    kicked_stays_out "ann" "bob" "r1" ann den events anns anns-IsSound refl (refl, (refl, (tt, tt)))
      bob_not_ann (lookup-insert_self "r1" den []) bob_inside
      (λ x. x, (λ x. absurd (not_add x.0), (λ x. x, tt)))
  where
    not_add : room_remove ≢ room_add
    not_add e = cc

handle_room_msg-foreign_example :
    lookup "r1"
      (handle_room_msg bob (envelope (env_of "eve") room_remove "r1") "eve" bobs).0.rooms_cache
    ≡ some den
unfolding lookup
handle_room_msg-foreign_example =
    handle_room_msg-foreign bob (envelope (env_of "eve") room_remove "r1") "eve" "r1" bobs den refl
      (lookup-insert_self "r1" den []) (ne_of_str_eq "ann" "bob" refl)
      (ne_of_str_eq "ann" "eve" refl)

abbrev den4 : Room
den4 = record den { seq = 4; colors_enabled = false }

deliver-Follows_example :
    (c' : Room) × Follows ann bob "r1" refl (deliver ann bob (den4 ∷ den ∷ []) bobs) c'
    × (den.seq ≤ c'.seq)
    × All (λ r. r.seq ≤ c'.seq) (den4 ∷ den ∷ [])
    × ((c' ≡ den) ⊎ Among c' (map wire_room (den4 ∷ den ∷ [])))
unfolding lookup
deliver-Follows_example =
    deliver-Follows ann bob "r1" refl (den4 ∷ den ∷ []) bobs den ((refl, refl), ((refl, refl), tt))
      (record { absent = refl; held = lookup-insert_self "r1" den []; theirs = refl })

abbrev eight : List ℕ
eight = 1 ∷ 2 ∷ 3 ∷ 4 ∷ 5 ∷ 6 ∷ 7 ∷ 8 ∷ []

abbrev key_bytes : List ℕ
key_bytes = eight ++ (eight ++ (eight ++ eight))

abbrev nonce_bytes : List ℕ
nonce_bytes = 1 ∷ 2 ∷ 3 ∷ 4 ∷ eight

-- Libraries that know one text, its bytes and one sealed file.
abbrev one_text : Codec
one_text = record {
  dumps = λ store. "rooms";
  loads = λ text. if str_eq text "rooms" then some (rooms (insert "r1" den [])) else none;
  encode = λ text. eight;
  decode = λ bytes. some "rooms";
  b64encode = λ bytes. "sealed";
  b64decode = λ text. some (rooms_magic ++ (nonce_bytes ++ (eight ++ eight)));
  encrypt = λ key nonce plain. eight ++ eight;
  decrypt = λ key nonce sealed. some eight;
}

load_store-save_store_example :
    load_store one_text true
      (rooms_key (some key_bytes) key_bytes).0
      (some (save_store one_text true key_bytes nonce_bytes (insert "r1" den [])))
    ≡ insert "r1" den []
unfolding rooms_key
load_store-save_store_example =
    load_store-save_store one_text true none key_bytes key_bytes nonce_bytes (insert "r1" den [])
      refl refl
      record {
        loads-dumps = refl;
        decode-encode = refl;
        decrypt-encrypt = refl;
        tag = ground arith;
        b64decode-b64encode = (refl, inl refl);
      }
