-- ===== src/Friends/Incoming.antt =====
-- `_handle_incoming`: the dispatch of what an authenticated connection brings. `verified` is the
-- identity that the connection proved, or "" without one.
use lan_chat.Base.{
  String, Bool, true, false, not, ◌&&◌, ◌||◌, Option, none, some, List, [], ◌∷◌, ◌++◌, str_eq,
  if◌then◌else◌,
}
use lan_chat.Dict.{has}
use lan_chat.History.Types.{Attachment, Message}
use lan_chat.History.Store.{has_mid, append_history, mark_attachment_gone}
use lan_chat.Held.Queue.{hold_friend_request}
use lan_chat.Rooms.Types.{
  Rooms, RoomMsg, Effect as RoomEffect, append, send as room_send, send_text, Env as RoomEnv,
  get_room,
}
use lan_chat.Rooms.Files.{handle_room_file_msg}
use lan_chat.Rooms.Handle.{handle_room_msg}
use lan_chat.Friends.Types.{
  Effect, Daemon, World, Env, of_room, serve, transfer_frame, is_in, send, append_all, reveal,
}
use lan_chat.Friends.Ledger.{
  is_friend, is_pending, is_trusted, add_friend, do_unfriend, unfriend_if_unconfirmed,
}
use lan_chat.Friends.Peers.{peer_name}
use lan_chat.Friends.Udp.{given_name, notify_accept, answered, held_for}

-- A chat message; a field that is "" is missing.
pub record Chat : Type 0 where
  pub text : String
  pub mid : String
  pub room : String
  pub attachment : Option Attachment
  pub friend_request : Bool

-- The types of messages. `presence` is a typing sign or a read receipt, `file_frame` a chunk or the
-- end of a transfer.
pub data Body : Type 0 where
  friend_accept friend_reject friend_remove presence : Body
  room room_file : RoomMsg → Body
  attachment_request : String → String → Body
  file_frame : String → String → Body
  attachment_error : String → String → String → Body
  chat : Chat → Body
  unknown : Body

pub record Frame : Type 0 where
  pub from : String
  pub from_name : String
  pub address : String
  pub body : Body

-- What the rooms ask of the daemon.
abbrev pub room_env : World → Env → Daemon → RoomEnv
room_env w env s = record {
  host_id = w.crypto.host_id;
  display_name = env.display_name;
  peer_name = λ pid. peer_name w pid s;
  is_trusted = λ pid. is_trusted pid s;
  sends = env.sends;
  strip = w.lib.strip;
  now = env.now;
  fresh = env.fresh;
}

-- The messages and the sends of a room's effects.
abbrev pub appended : List RoomEffect → List Message
appended [] = []
appended (append m ∷ es) = m ∷ appended es
appended (room_send pid m ∷ es) = appended es
appended (send_text pid t ∷ es) = appended es

abbrev pub sent : List RoomEffect → List Effect
sent [] = []
sent (append m ∷ es) = sent es
sent (room_send pid m ∷ es) = of_room (room_send pid m) ∷ sent es
sent (send_text pid t ∷ es) = of_room (send_text pid t) ∷ sent es

-- The identity that a frame is dispatched under.
abbrev pub author : String → Frame → String
author verified f = if str_eq verified "" then f.from else verified

module _ (w : World) (env : Env) where
  -- The rooms after a call, with its effects.
  unfoldable pub with_rooms : Rooms × List RoomEffect → Daemon → Daemon
  with_rooms (rooms, es) s = record s {
    rooms = rooms;
    store = append_all w.lib env.hist (appended es) s.store;
    outbox = s.outbox ++ sent es;
  }

  unfoldable pub handle_room : RoomMsg → String → Daemon → Daemon
  unfolding with_rooms handle_room_msg
  handle_room m verified s = with_rooms (handle_room_msg (room_env w env s) m verified s.rooms) s

  unfoldable pub handle_room_file : RoomMsg → String → Daemon → Daemon
  unfolding with_rooms handle_room_file_msg
  handle_room_file m verified s =
      with_rooms (s.rooms, handle_room_file_msg (room_env w env s) m verified s.rooms) s

  unfoldable pub handle_friend_accept : String → Frame → Daemon → Daemon
  unfolding add_friend
  handle_friend_accept pid f s =
      let befriended = add_friend env pid f.address (given_name w f.from_name pid) true s in
      if is_in pid s.request_outgoing
      then reveal w env (held_for pid s) (answered pid befriended)
      else s

  -- The text and the attachment are both missing.
  abbrev pub is_blank : Chat → Bool
  is_blank c = str_eq (w.lib.strip c.text) "" && elim c.attachment [ none ↦ true | some a ↦ false ]

  -- A room's message needs an author on the roster of our record of the room.
  unfoldable pub is_outsider : String → Chat → Daemon → Bool
  unfolding get_room
  is_outsider pid c s = elim (get_room c.room s.rooms) [
    | none ↦ not (str_eq c.room "")
    | some (_, r) ↦ not (str_eq c.room "") && not (has pid r.members)
  ]

  -- The tests that drop a chat message.
  unfoldable pub is_dropped : String → Chat → Daemon → Bool
  unfolding is_outsider
  is_dropped pid c s =
      (not (str_eq c.mid "") && has_mid c.mid s.store)
      || (not c.friend_request && not (is_trusted pid s))
      || is_blank c
      || is_outsider pid c s

  abbrev pub message_of : String → Chat → Message
  message_of pid c = record {
    mid = if str_eq c.mid "" then none else some c.mid;
    from = some pid;
    to = none;
    room = if str_eq c.room "" then none else some c.room;
    text = c.text;
    edited = false;
    attachment = c.attachment;
  }

  -- The message of a request is held under an id.
  abbrev pub with_mid : Message → Message
  with_mid m = record m { mid = elim m.mid [ none ↦ some env.fresh | some mid ↦ some mid ] }

  unfoldable pub handle_friend_request : String → Chat → Frame → Daemon → Daemon
  unfolding add_friend notify_accept hold_friend_request
  handle_friend_request pid c f s =
      let name = given_name w f.from_name pid in
      let befriended = add_friend env pid f.address name true (answered pid s) in
      let added = add_friend env pid f.address name false s in
      let known = if is_pending pid s then s else added in
      if not s.accepts
      then s
      else if is_in pid s.request_outgoing
      then reveal w env (held_for pid s) (notify_accept env pid befriended)
      else record known {
        pending =
            (hold_friend_request w.json_bytes pid (with_mid (message_of pid c)) known.pending).1;
      }

  unfoldable pub handle_chat : String → Chat → Frame → Daemon → Daemon
  unfolding is_dropped handle_friend_request append_history
  handle_chat pid c f s =
      if is_dropped pid c s
      then s
      else if c.friend_request && not (is_friend pid s)
      then handle_friend_request pid c f s
      else record s { store = append_history w.lib env.hist (message_of pid c) s.store }

  -- The error of a transfer that is not active: the attachment is flagged where it is gone.
  unfoldable pub handle_error : String → String → String → String → Daemon → Daemon
  unfolding mark_attachment_gone
  handle_error pid file_id mid text s =
      let gone = str_eq text "not found" || str_eq text "file missing" in
      let flagged = (mark_attachment_gone w.lib env.hist mid s.store).1 in
      if env.downloading file_id pid
      then send (transfer_frame pid file_id mid) s
      else if gone && not (str_eq mid "")
      then record s { store = flagged }
      else s

  unfoldable pub handle_body : String → String → Frame → Body → Daemon → Daemon
  unfolding handle_friend_accept unfriend_if_unconfirmed do_unfriend handle_room handle_room_file
      handle_chat handle_error
  handle_body verified pid f friend_accept s = handle_friend_accept pid f s
  handle_body verified pid f friend_reject s = unfriend_if_unconfirmed env pid (answered pid s)
  handle_body verified pid f friend_remove s =
      let removed = do_unfriend w env pid s in if str_eq pid "" then s else removed
  handle_body verified pid f presence s = s
  handle_body verified pid f (room m) s = handle_room (record m { from = pid }) verified s
  handle_body verified pid f (room_file m) s = handle_room_file (record m { from = pid }) verified s
  handle_body verified pid f (attachment_request file_id mid) s =
      let served = send (serve pid file_id mid) s in
      if not (str_eq pid "") && is_trusted pid s then served else s
  handle_body verified pid f (file_frame file_id mid) s = send (transfer_frame pid file_id mid) s
  handle_body verified pid f (attachment_error file_id mid text) s =
      handle_error pid file_id mid text s
  handle_body verified pid f (chat c) s = handle_chat pid c f s
  handle_body verified pid f unknown s = s

  -- A frame whose author is not the connection: the rooms alone look at it.
  unfoldable pub handle_mismatch : String → Frame → Body → Daemon → Daemon
  unfolding handle_room handle_room_file
  handle_mismatch verified f (room m) s = handle_room (record m { from = f.from }) verified s
  handle_mismatch verified f (room_file m) s =
      handle_room_file (record m { from = f.from }) verified s
  handle_mismatch verified f _ s = s

  unfoldable pub handle_incoming : Frame → String → Daemon → Daemon
  unfolding handle_body handle_mismatch
  handle_incoming f verified s =
      if not (str_eq verified "") && (not (str_eq f.from "") && not (str_eq f.from verified))
      then handle_mismatch verified f f.body s
      else handle_body verified (author verified f) f f.body s
