-- ===== src/Rooms/Rights.antt =====
-- What the event of a daemon entitles its author to: whom it may invite, let in, take off the roster or
-- change, and in which room.
use lan_chat.Base.{String, ◌≡◌, Bool, true, false, some, str_eq}
use lan_chat.Dict.{lookup}
use lan_chat.Rooms.Types.{
  Color, Member, Room, RoomMsg, room_add, room_join, room_leave, room_color_set, clipped,
}
use lan_chat.Rooms.Command.{invite, add, kick, permit, paint, colors, Event, command, message}

-- The author of a message that names one is the proven peer of its connection, where there is one.
abbrev pub IsAuthored : RoomMsg → String → Type 0
IsAuthored m verified = str_eq verified "" ≡ false → str_eq m.from "" ≡ false → m.from ≡ verified

-- A member with the right to invite.
abbrev pub CanInvite : String → Room → Type 0
CanInvite peer r = (m : Member) × (lookup peer r.members ≡ some m) × (m.can_invite ≡ true)

-- Who an event may bring a ticket.
abbrev pub Invites : Event → String → Type 0
Invites (command env (invite room_id p)) peer = p ≡ peer
Invites (command env (add room_id p)) peer = (p ≡ peer) × (env.is_trusted peer ≡ true)
Invites (message env m verified) peer =
    (m.kind ≡ room_add) × (m.peer ≡ peer) × (env.is_trusted peer ≡ true)
Invites _ peer = ⊥

-- The event is about the room under `k`, and its author may invite there: the user, or a member with
-- the right.
abbrev pub MayInvite : Event → String → Room → Type 0
MayInvite (command env (invite room_id p)) k r = room_id ≡ k
MayInvite (command env (add room_id p)) k r = room_id ≡ k
MayInvite (message env m verified) k r =
    (m.room_id ≡ k) × CanInvite m.from r × IsAuthored m verified
MayInvite _ k r = ⊥

-- Who an event may let in: the trusted author of a join, over its own connection.
abbrev pub Joins : Event → String → String → Type 0
Joins (message env m verified) k peer =
    (m.kind ≡ room_join)
    × (m.room_id ≡ k)
    × (m.from ≡ peer)
    × (env.is_trusted peer ≡ true)
    × IsAuthored m verified
Joins _ k peer = ⊥

-- Who an event may take off the roster: whom the user names, or the author of a leave.
abbrev pub Expels : Event → String → String → Type 0
Expels (command env (kick room_id p)) k peer = (room_id ≡ k) × (p ≡ peer)
Expels (message env m verified) k peer =
    (m.kind ≡ room_leave) × (m.room_id ≡ k) × (m.from ≡ peer) × IsAuthored m verified
Expels _ k peer = ⊥

-- What an event may make of a member: the user gives or takes the right to invite and paints its own
-- name, and a member paints its own.
abbrev pub Recasts : Event → String → String → Member → Member → Type 0
Recasts (command env (permit room_id p allowed)) k peer m m' =
    (room_id ≡ k) × (p ≡ peer) × (m' ≡ record m { can_invite = allowed })
Recasts (command env (paint room_id token hex)) k peer m m' =
    (room_id ≡ k)
    × (env.host_id ≡ peer)
    × ((color : Color) × (color.hex ≡ hex) × (m' ≡ record m { color = color }))
Recasts (message env msg verified) k peer m m' =
    (msg.kind ≡ room_color_set)
    × (msg.room_id ≡ k)
    × (msg.from ≡ peer)
    × IsAuthored msg verified
    × (m' ≡ record m { color = record { token = clipped 32 msg.token; hex = msg.hex } })
Recasts _ k peer m m' = ⊥

abbrev pub Switches : Event → String → Bool → Type 0
Switches (command env (colors room_id on)) k enabled = (room_id ≡ k) × (on ≡ enabled)
Switches _ k enabled = ⊥
