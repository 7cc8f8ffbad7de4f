-- ===== src/Rooms/Command.antt =====
-- The room commands of the user interface: `handle_command` of server.py.
use lan_chat.Base.{String, Bool, false, none, some, List, [], ◌∷◌, str_eq, if◌then◌else◌}
use lan_chat.Dict.{lookup}
use lan_chat.Rooms.Types.{
  Rooms, RoomMsg, FileMeta, room_add, room_join, Effect, send, Env, owned, get_room, load_rooms,
  envelope,
}
use lan_chat.Rooms.Owner.{
  create_room, owner_invite, owner_remove, owner_set_can_invite, owner_toggle_colors,
}
use lan_chat.Rooms.Member.{member_leave, member_set_color, forget_room, push_missing_room_states}
use lan_chat.Rooms.Files.{post_room_file, send_room_text}
use lan_chat.Rooms.Handle.{handle_room_msg, own_room}

pub data Command : Type 0 where
  create : String → Command
  post_text : String → String → Command
  post_file : String → FileMeta → String → Command
  invite add kick : String → String → Command
  join leave forget : String → Command
  permit : String → String → Bool → Command
  paint : String → String → String → Command
  colors : String → Bool → Command
  sync : Command

-- The rooms and effects of a call that also returns a value.
abbrev pub outcome {ℓ κ μ} : {A : Type ℓ} {B : Type κ} {C : Type μ} → A × B × C → B × C
outcome (a, b, c) = (b, c)

-- Both ways to invite: the owner asks, and another member proposes to the owner.
unfoldable pub command_invite : Env → String → String → Rooms → Rooms × List Effect
unfolding get_room owner_invite
command_invite env room_id peer s = elim (get_room room_id s) [
  | none ↦ (s, [])
  | some (p, r) ↦
      let done = outcome (owner_invite env p room_id peer s) in
      if str_eq r.owner env.host_id then done else (s, [])
]

unfoldable pub command_add : Env → String → String → Rooms → Rooms × List Effect
unfolding get_room owner_invite
command_add env room_id peer s = elim (get_room room_id s) [
  | none ↦ (s, [])
  | some (p, r) ↦
      let done = outcome (owner_invite env p room_id peer s) in
      let may : Bool = elim (lookup env.host_id r.members) [
        | none ↦ false
        | some m ↦ m.can_invite
      ] in
      let proposal = record (envelope env room_add r.room_id) { peer = peer } in
      if str_eq r.owner env.host_id
      then (if env.is_trusted peer then done else (s, []))
      else if may
      then (s, send r.owner proposal ∷ [])
      else (s, [])
]

unfoldable pub command_leave : Env → String → Rooms → Rooms × List Effect
unfolding get_room member_leave
command_leave env room_id s = elim (get_room room_id s) [
  | none ↦ (s, [])
  | some (p, r) ↦ outcome (member_leave env p room_id env.host_id s)
]

unfoldable pub command_paint : Env → String → String → String → Rooms → Rooms × List Effect
unfolding get_room member_set_color
command_paint env room_id token hex s = elim (get_room room_id s) [
  | none ↦ (s, [])
  | some (p, r) ↦ outcome (member_set_color env p room_id env.host_id token hex s)
]

-- The commands that need a room of the authoritative table.
unfoldable pub command_owner :
    Env → String → (Rooms → Rooms × List Effect) → Rooms → Rooms × List Effect
command_owner env room_id change s = elim (own_room env room_id s) [
  | none ↦ (s, [])
  | some r ↦ change s
]

unfoldable pub command_join : Env → String → Rooms → List Effect
command_join env room_id s = elim (lookup room_id s.rooms_cache) [
  | none ↦ []
  | some r ↦ send r.owner (envelope env room_join r.room_id) ∷ []
]

unfoldable pub room_command : Env → Command → Rooms → Rooms × List Effect
unfolding command_invite command_add command_leave command_paint command_owner command_join
    create_room forget_room
room_command env (create name) s = (create_room env name s, [])
room_command env (post_text room_id text) s = (s, (send_room_text env room_id text s).1)
room_command env (post_file room_id att text) s = (s, (post_room_file env room_id att text s).1)
room_command env (invite room_id peer) s = command_invite env room_id peer s
room_command env (add room_id peer) s = command_add env room_id peer s
room_command env (join room_id) s = (s, command_join env room_id s)
room_command env (leave room_id) s = command_leave env room_id s
room_command env (kick room_id peer) s =
    command_owner env room_id (λ x. outcome (owner_remove env owned room_id peer x)) s
room_command env (forget room_id) s = ((forget_room env room_id s).1, [])
room_command env (permit room_id peer allowed) s =
    command_owner env room_id (λ x. outcome (owner_set_can_invite env owned room_id peer allowed x))
      s
room_command env (paint room_id token hex) s = command_paint env room_id token hex s
room_command env (colors room_id enabled) s =
    command_owner env room_id (λ x. owner_toggle_colors env owned room_id enabled x) s
room_command env sync s = (s, push_missing_room_states env s)

-- What happens to the rooms of a daemon.
pub data Event : Type 0 where
  command : Env → Command → Event
  message : Env → RoomMsg → String → Event
  restart : Event

unfoldable pub step : Event → Rooms → Rooms
step (command env c) s = (room_command env c s).0
step (message env m verified) s = (handle_room_msg env m verified s).0
step restart s = load_rooms s

unfoldable pub run : List Event → Rooms → Rooms
run [] s = s
run (e ∷ es) s = run es (step e s)
