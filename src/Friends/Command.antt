-- ===== src/Friends/Command.antt =====
-- The commands of the user interface about friends, and what happens to the daemon: `handle_command`.
use lan_chat.Base.{
  ℕ, String, Bool, true, not, ◌&&◌, none, some, List, [], ◌∷◌, ◌==◌, str_eq, if◌then◌else◌,
}
use lan_chat.Dict.{lookup}
use lan_chat.Held.Queue.{release_pending_first}
use lan_chat.Rooms.Command.{Command as RoomCommand, room_command}
use lan_chat.Naming.{friendly_name}
use lan_chat.Friends.Types.{Daemon, World, Env, udp_packet, control, add_to, send, reveal}
use lan_chat.Friends.Ledger.{is_friend, add_friend, unfriend, do_unfriend}
use lan_chat.Friends.Peers.{upsert_peer, expire_peers}
use lan_chat.Friends.Udp.{Datagram, notify_accept, answered, handle_packet}
use lan_chat.Friends.Incoming.{Frame, room_env, with_rooms, handle_incoming}

abbrev pub default_port : ℕ
default_port = 4812

-- `set` has the fingerprint, address, name and port that the user gives; what is "" or 0 is
-- not given.
pub data Command : Type 0 where
  request cancel accept reject remove : String → Command
  set : String → String → String → ℕ → Command
  set_online : Bool → Command
  of_rooms : RoomCommand → Command

abbrev or_given : String → String → String
or_given given other = if str_eq given "" then other else given

-- The address, name and port that are given, or those that the peer announced.
abbrev pub set_address : String → String → Daemon → String
set_address address pid s =
    or_given address (elim (lookup pid s.peers) [ none ↦ "" | some p ↦ p.address ])

abbrev pub set_name : String → String → Daemon → String
set_name name pid s =
    or_given name (or_given (elim (lookup pid s.peers) [ none ↦ "" | some p ↦ p.name ]) "Unknown")

abbrev or_else : ℕ → ℕ → ℕ
or_else given other = if given == 0 then other else given

abbrev pub set_port : ℕ → String → Daemon → ℕ
set_port port pid s =
    or_else port (or_else (elim (lookup pid s.peers) [ none ↦ 0 | some p ↦ p.port ]) default_port)

module _ (w : World) (env : Env) where
  unfoldable pub command_request : String → Daemon → Daemon
  unfolding add_to
  command_request to s =
      let asked = send (udp_packet "friend-request" to) s in
      if not (str_eq to "") && env.udp to
      then record asked { request_outgoing = add_to to s.request_outgoing }
      else s

  unfoldable pub command_cancel : String → Daemon → Daemon
  command_cancel pid s =
      let withdrawn = answered pid s in
      let told = send (udp_packet "friend-cancel" pid) withdrawn in
      if not (str_eq pid "") && not (is_friend pid s)
      then (if env.udp pid then told else withdrawn)
      else s

  unfoldable pub command_accept : String → Daemon → Daemon
  unfolding add_friend release_pending_first notify_accept
  command_accept pid s =
      let address : String = elim (lookup pid s.peers) [ none ↦ "" | some p ↦ p.address ] in
      let name : String = elim (lookup pid s.peers) [
        | none ↦ friendly_name w.digest pid
        | some p ↦ p.name
      ] in
      let befriended = add_friend env pid address name true s in
      let (held, pending) = release_pending_first pid s.pending in
      notify_accept env pid (reveal w env held (record befriended { pending = pending }))

  -- The friend is added, its address is noted where it is known, and it is asked.
  unfoldable pub set_friend : String → String → String → ℕ → Daemon → Daemon
  unfolding add_friend upsert_peer command_request
  set_friend pid addr pname pport s =
      let befriended = add_friend env pid addr pname true s in
      let known = upsert_peer env pid pname addr pport befriended in
      command_request pid (if str_eq addr "" then befriended else known)

  unfoldable pub command_set : String → String → String → ℕ → Daemon → Daemon
  unfolding set_friend
  command_set id address name port s =
      let pid = w.lib.strip id in
      if str_eq pid ""
      then s
      else set_friend pid (set_address address pid s) (set_name name pid s) (set_port port pid s) s

  unfoldable pub command_reject : String → Daemon → Daemon
  unfolding release_pending_first unfriend
  command_reject pid s =
      let told = send (udp_packet "friend-reject" pid) s in
      let told' = send (control "friendReject" pid) (if env.udp pid then told else s) in
      unfriend env pid (record told' { pending = (release_pending_first pid s.pending).1 })

  unfoldable pub command_remove : String → Daemon → Daemon
  unfolding do_unfriend
  command_remove pid s =
      let removed = do_unfriend w env pid s in
      let told =
        send (if env.udp pid then udp_packet "friend-unfriend" pid else control "friendRemove" pid)
          removed in
      if str_eq pid "" then removed else told

  unfoldable pub handle_command : Command → Daemon → Daemon
  unfolding command_request command_cancel command_accept command_set command_reject command_remove
      with_rooms room_command
  handle_command (request to) s = command_request to s
  handle_command (cancel pid) s = command_cancel pid s
  handle_command (accept pid) s = command_accept pid s
  handle_command (reject pid) s = command_reject pid s
  handle_command (remove pid) s = command_remove pid s
  handle_command (set pid address name port) s = command_set pid address name port s
  handle_command (set_online online) s = record s { online = online }
  handle_command (of_rooms c) s = with_rooms w env (room_command (room_env w env s) c s.rooms) s

-- What happens to a daemon, each with what the call finds.
pub data Event : Type 0 where
  command : Env → Command → Event
  packet : Env → Datagram → Event
  frame : Env → Frame → String → Event
  hello : Env → String → String → String → ℕ → Event
  tick : Env → Event

unfoldable pub step : World → Event → Daemon → Daemon
unfolding handle_command handle_packet handle_incoming upsert_peer expire_peers
step w (command env c) s = handle_command w env c s
step w (packet env d) s = handle_packet w env d s
step w (frame env f verified) s = handle_incoming w env f verified s
step w (hello env pid name address port) s = upsert_peer env pid name address port s
step w (tick env) s = expire_peers env s

unfoldable pub run : World → List Event → Daemon → Daemon
unfolding step
run w [] s = s
run w (e ∷ es) s = run w es (step w e s)
