-- ===== src/Rooms/Machine.antt =====
-- The state machine of one room, and what a call may do to the rooms of a daemon.
use lan_chat.Base.{ℕ, String, ◌≡◌, ◌≢◌, Bool, true, false, none, some}
use lan_chat.Dict.{lookup, insert, erase, has}
use lan_chat.Rooms.Types.{
  Member, Room, Rooms, Place, cached, room_at, put_room, persist_owner, persist_cache, bump,
}
use lan_chat.Rooms.Owner.{removed}
use lan_chat.Rooms.Command.{Event}
use lan_chat.Rooms.Rights.{Invites, MayInvite, Joins, Expels, Recasts, Switches}

-- One step of the room under `k` that an event allows.
pub data Step (e : Event) (k : String) (r u : Room) : Type 0 where
  stay : u ≡ r → Step e k r u
  ticket :
      (peer : String) (now : ℕ)
      → Invites e peer
      → MayInvite e k r
      → u ≡ record r { invited = insert peer now r.invited }
      → Step e k r u
  enter :
      (peer : String) (m : Member)
      → Joins e k peer
      → m.can_invite ≡ false
      → has peer r.members ≡ false
      → has peer r.invited ≡ true
      → u ≡ bump (record r { members = insert peer m r.members; invited = erase peer r.invited })
      → Step e k r u
  resync :
      (peer : String)
      → Joins e k peer
      → has peer r.members ≡ true
      → u ≡ record r { invited = erase peer r.invited }
      → Step e k r u
  expel :
      (peer : String)
      → Expels e k peer
      → has peer r.members ≡ true
      → peer ≢ r.owner
      → u ≡ removed peer r
      → Step e k r u
  change :
      (peer : String) (m m' : Member)
      → Recasts e k peer m m'
      → lookup peer r.members ≡ some m
      → u ≡ bump (record r { members = insert peer m' r.members })
      → Step e k r u
  switch :
      (enabled : Bool)
      → Switches e k enabled
      → u ≡ bump (record r { colors_enabled = enabled })
      → Step e k r u

-- Every shape that a change of the rooms has.
pub data Change (e : Event) (s s' : Rooms) : Type 0 where
  same : s' ≡ s → Change e s s'
  edit :
      (p : Place) (k : String) (r u : Room)
      → room_at p k s ≡ some r
      → Step e k r u
      → s' ≡ persist_owner (put_room p k u s)
      → Change e s s'
  cache_in :
      (k : String) (r : Room)
      → r.room_id ≡ k
      → s' ≡ persist_cache (put_room cached k r s)
      → Change e s s'
  cache_out :
      (k : String)
      → s' ≡ persist_cache (record s { rooms_cache = erase k s.rooms_cache })
      → Change e s s'
  leave_cached :
      (k id : String) (u : Room)
      → id ≡ k
      → s' ≡ persist_cache (record s { rooms_cache = erase id (insert k u s.rooms_cache) })
      → Change e s s'
  disband_cached :
      (k id : String) (u : Room)
      → u.room_id ≡ k
      → id ≡ k
      → lookup k s.rooms ≡ none
      → s'
        ≡ persist_owner
            (record s { rooms = erase id s.rooms; rooms_cache = insert k u s.rooms_cache })
      → Change e s s'

-- The owner gives up a room.
abbrev pub disbanded : String → String → Room → Rooms → Rooms
disbanded k id u s = persist_owner (record s { rooms = erase id (insert k u s.rooms) })
