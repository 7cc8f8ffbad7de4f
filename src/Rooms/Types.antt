-- ===== src/Rooms/Types.antt =====
-- The rooms that a daemon owns or knows, and what it sends about them.
use Prim.Native.Char.{code}
use Prim.Native.String.{count, [] as nil, ◌∷◌ as ◌∷ₛ◌}
use lan_chat.Base.{
  ℕ, zero, suc, ◌+◌, String, Bool, false, ◌&&◌, ◌||◌, Option, none, some, List, [], ◌∷◌, ◌==◌,
  str_eq,
}
use lan_chat.Dict.{Dict, lookup, insert}
use lan_chat.History.Types.{Attachment, Message}

pub record Color : Type 0 where
  pub token : String
  pub hex : String

pub record Member : Type 0 where
  pub name : String
  pub can_invite : Bool
  pub color : Color

-- `invited` holds the tickets; a room without the field has none.
pub record Room : Type 0 where
  pub room_id : String
  pub name : String
  pub owner : String
  pub created : ℕ
  pub seq : ℕ
  pub colors_enabled : Bool
  pub members : Dict Member
  pub invited : Dict ℕ

-- The rooms that this daemon owns, its last known copies of others, and the files of both.
pub record Rooms : Type 0 where
  pub rooms : Dict Room
  pub rooms_cache : Dict Room
  pub rooms_file : Dict Room
  pub cache_file : Dict Room

pub data Kind : Type 0 where
  room_state room_invite room_state_req room_file room_leave room_join room_add room_color_set :
      Kind
  room_remove room_file_status other_kind : Kind

-- The metadata of a file that is posted in a room.
pub record FileMeta : Type 0 where
  pub mid : String
  pub file_id : String
  pub attachment : Attachment

-- An envelope; a field that a kind does not use is blank.
pub record RoomMsg : Type 0 where
  pub kind : Kind
  pub room_id : String
  pub from : String
  pub from_name : String
  pub name : String
  pub peer : String
  pub token : String
  pub hex : String
  pub text : String
  pub status : String
  pub room : Option Room
  pub att : Option FileMeta

-- A chat text for the members of a room.
pub record RoomText : Type 0 where
  pub text : String
  pub mid : String
  pub room : String

-- What a call does outside the rooms: a write to a peer, and a message for the history.
pub data Effect : Type 0 where
  send : String → RoomMsg → Effect
  send_text : String → RoomText → Effect
  append : Message → Effect

-- What a call finds: this host, the answers of the rest of the daemon, the clock and a fresh id.
pub record Env : Type 0 where
  pub host_id : String
  pub display_name : String
  pub peer_name : String → String
  pub is_trusted : String → Bool
  pub sends : String → Bool
  pub strip : String → String
  pub now : ℕ
  pub fresh : String

abbrev pub name_max : ℕ
name_max = 48

-- `s[:n]`
abbrev pub clipped : ℕ → String → String
clipped zero s = nil
clipped (suc n) nil = nil
clipped (suc n) (c ∷ₛ s) = c ∷ₛ clipped n s

-- A colour is the theme's, or a hex colour of three or six digits.
abbrev pub is_hex : String → Bool
is_hex nil = false
is_hex (c ∷ₛ s) = (code c == 35) && ((count s == 3) || (count s == 6))

abbrev pub is_color : String → String → Bool
is_color token hex = str_eq token "theme" || is_hex hex

abbrev pub theme : Color
theme = record { token = "theme"; hex = "" }

abbrev pub keys {ℓ} : {V : Type ℓ} → Dict V → List String
keys [] = []
keys ((k, v) ∷ d) = k ∷ keys d

-- A room is in the authoritative table or in the cache.
pub data Place : Type 0 where
  owned cached : Place

abbrev pub room_at : Place → String → Rooms → Option Room
room_at owned room_id s = lookup room_id s.rooms
room_at cached room_id s = lookup room_id s.rooms_cache

abbrev pub put_room : Place → String → Room → Rooms → Rooms
put_room owned room_id r s = record s { rooms = insert room_id r s.rooms }
put_room cached room_id r s = record s { rooms_cache = insert room_id r s.rooms_cache }

abbrev pub persist_owner : Rooms → Rooms
persist_owner s = record s { rooms_file = s.rooms }

abbrev pub persist_cache : Rooms → Rooms
persist_cache s = record s { cache_file = s.rooms_cache }

unfoldable pub load_rooms : Rooms → Rooms
load_rooms s = record s { rooms = s.rooms_file; rooms_cache = s.cache_file }

-- Where `get_room` and `_recorded_room` find a room.
unfoldable pub get_room : String → Rooms → Option (Place × Room)
get_room room_id s = elim (lookup room_id s.rooms) [
  | some r ↦ some (owned, r)
  | none ↦ elim (lookup room_id s.rooms_cache) [ none ↦ none | some r ↦ some (cached, r) ]
]

abbrev pub bump : Room → Room
bump r = record r { seq = r.seq + 1 }

-- An envelope of this host about a room.
abbrev pub envelope : Env → Kind → String → RoomMsg
envelope env kind room_id = record {
  kind = kind;
  room_id = room_id;
  from = env.host_id;
  from_name = env.display_name;
  name = "";
  peer = "";
  token = "";
  hex = "";
  text = "";
  status = "";
  room = none;
  att = none;
}
