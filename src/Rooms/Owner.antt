-- ===== src/Rooms/Owner.antt =====
-- The owner's operations on a room.
use Prim.Native.String.{◌++◌ as ◌⧺◌}
use lan_chat.Base.{
  String, Bool, true, false, not, ◌||◌, none, some, List, [], ◌∷◌, str_eq, if◌then◌else◌, keep,
}
use lan_chat.Dict.{lookup, insert, erase, has}
use lan_chat.Rooms.Types.{
  Color, Member, Room, Rooms, RoomMsg, Effect, send, Env, Place, owned, room_state, room_invite,
  room_remove, name_max, clipped, theme, keys, room_at, put_room, persist_owner, bump, envelope,
}

abbrev pub new_member : String → Bool → Member
new_member name can_invite = record { name = name; can_invite = can_invite; color = theme }

abbrev pub new_room : Env → String → Room
new_room env name = record {
  room_id = env.fresh;
  name = clipped name_max name;
  owner = env.host_id;
  created = env.now;
  seq = 1;
  colors_enabled = true;
  members = (env.host_id, new_member env.display_name true) ∷ [];
  invited = [];
}

-- The name that a new room gets: a blank one is replaced.
abbrev pub room_name : Env → String → String
room_name env name =
    if str_eq (env.strip name) "" then env.display_name ⧺ "'s room" else env.strip name

unfoldable pub create_room : Env → String → Rooms → Rooms
create_room env name s =
    persist_owner (put_room owned env.fresh (new_room env (room_name env name)) s)

-- The copy of a room that goes out: without the tickets.
abbrev pub wire_room : Room → Room
wire_room r = record r { invited = [] }

abbrev pub state_msg : Env → Room → RoomMsg
state_msg env r = record (envelope env room_state r.room_id) { room = some (wire_room r) }

abbrev pub send_all : RoomMsg → List String → List Effect
send_all m [] = []
send_all m (pid ∷ pids) =
    let rest = send_all m pids in if str_eq pid "" then rest else send pid m ∷ rest

-- To one member, or to every member but the owner.
unfoldable pub send_room_state : Env → Room → String → List Effect
send_room_state env r to_pid =
    send_all (state_msg env r) (
      if str_eq to_pid "" then keep (λ m. not (str_eq m r.owner)) (keys r.members) else to_pid ∷ [])

-- The operations change the room that stands at a place, where there is one.
unfoldable pub owner_invite : Env → Place → String → String → Rooms → Bool × Rooms × List Effect
owner_invite env p room_id peer_id s = elim (room_at p room_id s) [
  | none ↦ (false, s, [])
  | some r ↦
      let invite = record (envelope env room_invite r.room_id) { name = r.name } in
      let ticketed = record r { invited = insert peer_id env.now r.invited } in
      if env.sends peer_id
      then (true, persist_owner (put_room p room_id ticketed s), send peer_id invite ∷ [])
      else (false, s, send peer_id invite ∷ [])
]

-- The roster with a new member, whose name is the one that it gives or the one that is known.
abbrev pub admitted : Env → String → String → Room → Room
admitted env peer_id peer_name r =
    let name = if str_eq peer_name "" then env.peer_name peer_id else peer_name in
    if has peer_id r.members
    then r
    else bump (record r { members = insert peer_id (new_member name false) r.members })

unfoldable pub owner_admit : Env → Place → String → String → String → Rooms → Rooms × List Effect
unfolding send_room_state
owner_admit env p room_id peer_id peer_name s = elim (room_at p room_id s) [
  | none ↦ (s, [])
  | some r ↦
      let r' = admitted env peer_id peer_name r in
      (persist_owner (put_room p room_id r' s), send_room_state env r' "")
]

abbrev pub removed : String → Room → Room
removed peer_id r =
    bump (record r { members = erase peer_id r.members; invited = erase peer_id r.invited })

unfoldable pub owner_remove : Env → Place → String → String → Rooms → Bool × Rooms × List Effect
unfolding send_room_state
owner_remove env p room_id peer_id s = elim (room_at p room_id s) [
  | none ↦ (false, s, [])
  | some r ↦ if str_eq peer_id r.owner || not (has peer_id r.members) then (false, s, []) else (
    true,
    persist_owner (put_room p room_id (removed peer_id r) s),
    send peer_id (envelope env room_remove r.room_id) ∷ send_room_state env (removed peer_id r) "",
  )
]

-- `room["members"][peer_id]` changed.
abbrev pub with_member : String → (Member → Member) → Room → Room
with_member peer_id change r = elim (lookup peer_id r.members) [
  | none ↦ r
  | some m ↦ bump (record r { members = insert peer_id (change m) r.members })
]

unfoldable pub owner_set_can_invite :
    Env → Place → String → String → Bool → Rooms → Bool × Rooms × List Effect
unfolding send_room_state
owner_set_can_invite env p room_id peer_id allowed s = elim (room_at p room_id s) [
  | none ↦ (false, s, [])
  | some r ↦
      let r' = with_member peer_id (λ m. record m { can_invite = allowed }) r in
      if str_eq peer_id r.owner || not (has peer_id r.members)
      then (false, s, [])
      else (true, persist_owner (put_room p room_id r' s), send_room_state env r' "")
]

unfoldable pub apply_member_color :
    Env → Place → String → String → String → String → Rooms → Rooms × List Effect
unfolding send_room_state
apply_member_color env p room_id peer_id token hex s = elim (room_at p room_id s) [
  | none ↦ (s, [])
  | some r ↦
      let color : Color = record { token = token; hex = hex } in
      let r' = with_member peer_id (λ m. record m { color = color }) r in
      (persist_owner (put_room p room_id r' s), send_room_state env r' "")
]

unfoldable pub owner_toggle_colors : Env → Place → String → Bool → Rooms → Rooms × List Effect
unfolding send_room_state
owner_toggle_colors env p room_id enabled s = elim (room_at p room_id s) [
  | none ↦ (s, [])
  | some r ↦
      let r' = bump (record r { colors_enabled = enabled }) in
      (persist_owner (put_room p room_id r' s), send_room_state env r' "")
]
