-- ===== src/Rooms/Member.antt =====
-- The operations of a member, and what the user interface reads.
use lan_chat.Base.{
  ℕ, String, Bool, true, false, not, ◌||◌, none, some, List, [], ◌∷◌, ◌==◌, str_eq, if◌then◌else◌,
  map, length,
}
use lan_chat.Dict.{Dict, lookup, insert, erase, has}
use lan_chat.Rooms.Types.{
  Room, Rooms, Effect, send, Env, Place, room_state_req, room_leave, room_color_set, room_remove,
  clipped, is_color, keys, room_at, put_room, persist_owner, persist_cache, bump, envelope,
}
use lan_chat.Rooms.Owner.{send_all, apply_member_color}

unfoldable pub member_set_color :
    Env → Place → String → String → String → String → Rooms → Bool × Rooms × List Effect
unfolding apply_member_color
member_set_color env p room_id peer_id token hex s = elim (room_at p room_id s) [
  | none ↦ (false, s, [])
  | some r ↦
      let token' = clipped 32 (if str_eq token "" then "theme" else token) in
      let proposal = record (envelope env room_color_set r.room_id) { token = token'; hex = hex } in
      let (s', effects) = apply_member_color env p room_id peer_id token' hex s in
      if not (has peer_id r.members) || not (is_color token' hex)
      then (false, s, [])
      else if str_eq r.owner peer_id
      then (true, s', effects)
      else (env.sends r.owner, s, send r.owner proposal ∷ [])
]

-- The rest of a leave, after the owner was told: the room goes from the table of an owner, from the
-- cache of a member.
unfoldable pub left : Env → Place → String → String → Room → Rooms → Rooms × List Effect
left env p room_id peer_id r s =
    let r' = bump (record r { members = erase peer_id r.members }) in
    let s' = put_room p room_id r' s in
    if str_eq r.owner peer_id || (length r'.members == 0)
    then (
      persist_owner (record s' { rooms = erase r.room_id s'.rooms }),
      send_all (envelope env room_remove r.room_id) (keys r'.members),
    )
    else (persist_cache (record s' { rooms_cache = erase r.room_id s'.rooms_cache }), [])

unfoldable pub member_leave : Env → Place → String → String → Rooms → Bool × Rooms × List Effect
unfolding left
member_leave env p room_id peer_id s = elim (room_at p room_id s) [
  | none ↦ (false, s, [])
  | some r ↦
      let leave = send r.owner (envelope env room_leave r.room_id) in
      let (s', effects) = left env p room_id peer_id r s in
      if not (has peer_id r.members)
      then (false, s, [])
      else if str_eq r.owner peer_id
      then (true, s', effects)
      else if not (env.is_trusted r.owner)
      then (true, persist_cache (record s { rooms_cache = erase r.room_id s.rooms_cache }), [])
      else if env.sends r.owner
      then (true, s', leave ∷ effects)
      else (false, s, leave ∷ [])
]

unfoldable pub forget_room : Env → String → Rooms → Bool × Rooms
forget_room env room_id s = elim (lookup room_id s.rooms_cache) [
  | none ↦ (false, s)
  | some r ↦
      if has room_id s.rooms || has env.host_id r.members || str_eq r.owner env.host_id
      then (false, s)
      else (true, persist_cache (record s { rooms_cache = erase room_id s.rooms_cache }))
]

-- The requests for the state of each room of the list that is not owned here.
unfoldable pub requests : Env → Dict Room → Dict Room → List Effect
requests env rooms [] = []
requests env rooms ((room_id, r) ∷ d) =
    let rest = requests env rooms d in
    if has room_id rooms || str_eq r.owner "" || str_eq r.owner env.host_id
    then rest
    else send r.owner (envelope env room_state_req room_id) ∷ rest

unfoldable pub push_missing_room_states : Env → Rooms → List Effect
unfolding requests
push_missing_room_states env s = requests env s.rooms s.rooms_cache

pub record Summary : Type 0 where
  pub room_id : String
  pub name : String
  pub owner : String
  pub seq : ℕ
  pub colors_enabled : Bool
  pub member_count : ℕ

abbrev pub room_summary : Room → Summary
room_summary r = record {
  room_id = r.room_id;
  name = r.name;
  owner = r.owner;
  seq = r.seq;
  colors_enabled = r.colors_enabled;
  member_count = length r.members;
}

-- `d.update(e)`
unfoldable pub update {ℓ} : {V : Type ℓ} → Dict V → Dict V → Dict V
update d [] = d
update d ((k, v) ∷ e) = update (insert k v d) e

unfoldable pub my_rooms : Rooms → Dict Room
unfolding update
my_rooms s = update s.rooms_cache s.rooms

unfoldable pub rooms_list : Rooms → List Summary
unfolding my_rooms
rooms_list s = map (λ (_, r). room_summary r) (my_rooms s)
