-- ===== src/Rooms/Handle.antt =====
-- `handle_room_msg`: the router of the envelopes that arrive. `verified` is the proven identity of the
-- connection, or "" without one.
use lan_chat.Base.{
  ltb, String, Bool, true, false, not, ◌&&◌, ◌||◌, Option, none, some, List, [], str_eq,
  if◌then◌else◌,
}
use lan_chat.Dict.{lookup, erase, has}
use lan_chat.Rooms.Types.{
  Room, Rooms, RoomMsg, Kind, room_state, room_invite, room_state_req, room_file, room_leave,
  room_join, room_add, room_color_set, room_remove, room_file_status, other_kind, Effect, Env,
  owned, cached, clipped, is_color, put_room, persist_owner, persist_cache, get_room,
}
use lan_chat.Rooms.Owner.{
  owner_invite, owner_admit, owner_remove, apply_member_color, send_room_state,
}
use lan_chat.Rooms.Files.{fan_out_room_file, handle_room_file_msg, writer}

-- The owner that is recorded for a room, "" without a record.
abbrev pub recorded_owner : String → Rooms → String
recorded_owner room_id s = elim (get_room room_id s) [ none ↦ "" | some (_, r) ↦ r.owner ]

-- A snapshot from the recorded owner replaces our copy, unless ours is newer.
unfoldable pub handle_state : RoomMsg → String → Rooms → Rooms
unfolding get_room
handle_state m verified s = elim m.room [
  | none ↦ s
  | some room ↦
      let newer : Bool = elim (lookup m.room_id s.rooms_cache) [
        | none ↦ false
        | some mine ↦ ltb room.seq mine.seq
      ] in
      if not (str_eq room.room_id m.room_id) then s else elim (get_room m.room_id s) [
        | none ↦ s
        | some (_, recorded) ↦
            if not (str_eq recorded.owner verified) || has m.room_id s.rooms || newer
            then s
            else persist_cache (put_room cached m.room_id room s)
      ]
]

abbrev pub stub : Env → RoomMsg → Room
stub env m = record {
  room_id = m.room_id;
  name = m.name;
  owner = m.from;
  created = env.now;
  seq = 0;
  colors_enabled = true;
  members = [];
  invited = [];
}

unfoldable pub handle_invite : Env → RoomMsg → Rooms → Rooms
handle_invite env m s =
    if has m.room_id s.rooms_cache || has m.room_id s.rooms
    then s
    else persist_cache (put_room cached m.room_id (stub env m) s)

-- The room of the message, if this host owns it.
abbrev pub own_room : Env → String → Rooms → Option Room
own_room env room_id s = elim (lookup room_id s.rooms) [
  | none ↦ none
  | some r ↦ if str_eq r.owner env.host_id then some r else none
]

unfoldable pub handle_join : Env → RoomMsg → Rooms → Rooms × List Effect
unfolding owner_admit
handle_join env m s = elim (own_room env m.room_id s) [
  | none ↦ (s, [])
  | some r ↦
      let spent = record r { invited = erase m.from r.invited } in
      let s' =
        if has m.from r.invited then persist_owner (put_room owned m.room_id spent s) else s in
      if not (env.is_trusted m.from) || (not (has m.from r.members) && not (has m.from r.invited))
      then (s, [])
      else owner_admit env owned m.room_id m.from m.from_name s'
]

unfoldable pub handle_add : Env → RoomMsg → Rooms → Rooms × List Effect
unfolding owner_invite
handle_add env m s = elim (own_room env m.room_id s) [
  | none ↦ (s, [])
  | some r ↦
      let may : Bool = elim (lookup m.from r.members) [
        | none ↦ false
        | some member ↦ member.can_invite
      ] in
      let (_, s', effects) = owner_invite env owned m.room_id m.peer s in
      if not may || (str_eq m.peer "" || not (env.is_trusted m.peer))
      then (s, [])
      else (s', effects)
]

unfoldable pub handle_color_set : Env → RoomMsg → Rooms → Rooms × List Effect
unfolding get_room apply_member_color
handle_color_set env m s = elim (get_room m.room_id s) [
  | none ↦ (s, [])
  | some (p, r) ↦
      let token = clipped 32 m.token in
      if not (str_eq r.owner env.host_id)
        || not (has m.from r.members)
        || not (is_color token m.hex)
      then (s, [])
      else apply_member_color env p m.room_id m.from token m.hex s
]

unfoldable pub handle_remove : RoomMsg → String → Rooms → Rooms
unfolding get_room
handle_remove m verified s = elim (get_room m.room_id s) [
  | none ↦ s
  | some (_, r) ↦
      if str_eq r.owner verified
      then persist_cache (record s { rooms_cache = erase m.room_id s.rooms_cache })
      else s
]

unfoldable pub handle_file : Env → RoomMsg → String → Rooms → List Effect
unfolding get_room fan_out_room_file handle_room_file_msg
handle_file env m verified s = elim (get_room m.room_id s) [
  | none ↦ []
  | some (_, r) ↦
      if not (has (writer verified m) r.members) then [] else elim (own_room env m.room_id s) [
        | some room ↦ fan_out_room_file env room m
        | none ↦ handle_room_file_msg env m verified s
      ]
]

unfoldable pub handle_state_req : Env → RoomMsg → Rooms → List Effect
unfolding send_room_state
handle_state_req env m s = elim (own_room env m.room_id s) [
  | none ↦ []
  | some r ↦ if has m.from r.members then send_room_state env r m.from else []
]

unfoldable pub handle_leave : Env → RoomMsg → Rooms → Rooms × List Effect
unfolding owner_remove
handle_leave env m s = elim (own_room env m.room_id s) [
  | none ↦ (s, [])
  | some r ↦ let (_, s', effects) = owner_remove env owned m.room_id m.from s in (s', effects)
]

unfoldable pub handle_kind : Env → Kind → RoomMsg → String → Rooms → Rooms × List Effect
unfolding handle_state handle_invite handle_state_req handle_file handle_leave handle_join
    handle_add handle_color_set handle_remove
handle_kind env room_state m verified s = (handle_state m verified s, [])
handle_kind env room_invite m verified s = (handle_invite env m s, [])
handle_kind env room_state_req m verified s = (s, handle_state_req env m s)
handle_kind env room_file m verified s = (s, handle_file env m verified s)
handle_kind env room_leave m verified s = handle_leave env m s
handle_kind env room_join m verified s = handle_join env m s
handle_kind env room_add m verified s = handle_add env m s
handle_kind env room_color_set m verified s = handle_color_set env m s
handle_kind env room_remove m verified s = (handle_remove m verified s, [])
handle_kind env room_file_status m verified s = (s, [])
handle_kind env other_kind m verified s = (s, [])

abbrev pub is_file : Kind → Bool
is_file room_file = true
is_file _ = false

-- An author other than the connection; the owner may relay a file.
unfoldable pub is_mismatch : RoomMsg → String → Rooms → Bool
unfolding get_room
is_mismatch m verified s =
    let owner = recorded_owner m.room_id s in
    not (str_eq verified "")
    && (not (str_eq m.from "")
        && (not (str_eq m.from verified)
            && not (is_file m.kind && (not (str_eq owner "") && str_eq verified owner))))

unfoldable pub handle_room_msg : Env → RoomMsg → String → Rooms → Rooms × List Effect
unfolding handle_kind is_mismatch
handle_room_msg env m verified s =
    if str_eq m.room_id "" || is_mismatch m verified s
    then (s, [])
    else handle_kind env m.kind m verified s
