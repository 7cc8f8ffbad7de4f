-- ===== src/Friends/Udp.antt =====
-- server.py's handlers of the signed friend packets.
use lan_chat.Base.{ℕ, String, true, not, Option, none, some, List, [], str_eq, if◌then◌else◌}
use lan_chat.Dict.{lookup, erase}
use lan_chat.History.Types.{Message}
use lan_chat.Held.Queue.{or_else, release_pending_first}
use lan_chat.Udp.Verify.{Packet, verify_udp_friend_packet}
use lan_chat.Naming.{friendly_name, clean_name}
use lan_chat.Friends.Types.{Daemon, World, Env, udp_packet, control, is_in, discard, send, reveal}
use lan_chat.Friends.Ledger.{add_friend, do_unfriend, unfriend_if_unconfirmed}
use lan_chat.Friends.Peers.{upsert_peer}

pub data PacketKind : Type 0 where
  friend_request friend_accept friend_cancel friend_reject friend_unfriend : PacketKind

abbrev pub kind_name : PacketKind → String
kind_name friend_request = "friend-request"
kind_name friend_accept = "friend-accept"
kind_name friend_cancel = "friend-cancel"
kind_name friend_reject = "friend-reject"
kind_name friend_unfriend = "friend-unfriend"

-- What a datagram holds besides the signed fields.
pub record Datagram : Type 0 where
  pub kind : PacketKind
  pub packet : Packet
  pub name : String
  pub address : String
  pub port : ℕ

-- The name of a sender: the one that it gives, cleaned, or the friendly one.
abbrev pub given_name : World → String → String → String
given_name w name pid =
    let cleaned = clean_name w.is_printable name in
    if str_eq cleaned "" then friendly_name w.digest pid else cleaned

-- The packet goes over UDP, or else the control frame over the connection.
unfoldable pub notify_accept : Env → String → Daemon → Daemon
notify_accept env pid s =
    send (if env.udp pid then udp_packet "friend-accept" pid else control "friendAccept" pid) s

-- An outbound request is answered: it is no longer outstanding, and what was held for it goes.
abbrev pub answered : String → Daemon → Daemon
answered pid s = record s {
  request_outgoing = discard pid s.request_outgoing;
  pending_sent = erase pid s.pending_sent;
}

abbrev pub held_for : String → Daemon → List Message
held_for pid s = or_else [] (lookup pid s.pending_sent)

module _ (w : World) (env : Env) where
  unfoldable pub handle_udp_friend_request : String → Datagram → Daemon → Daemon
  unfolding upsert_peer add_friend notify_accept
  handle_udp_friend_request claimed d s =
      let name = given_name w d.name claimed in
      let known = upsert_peer env claimed name d.address d.port (answered claimed s) in
      let befriended = add_friend env claimed d.address name true known in
      if not s.accepts
      then s
      else if is_in claimed s.request_outgoing
      then reveal w env (held_for claimed s) (notify_accept env claimed befriended)
      else upsert_peer env claimed name d.address d.port s

  unfoldable pub handle_udp_friend_accept : String → Datagram → Daemon → Daemon
  unfolding add_friend
  handle_udp_friend_accept claimed d s =
      let announced : Option String = elim (lookup claimed s.peers) [
        | none ↦ none
        | some p ↦ if str_eq p.name "" then none else some p.name
      ] in
      let name = or_else (given_name w d.name claimed) announced in
      let befriended = add_friend env claimed d.address name true s in
      if is_in claimed s.request_outgoing
      then reveal w env (held_for claimed s) (answered claimed befriended)
      else s

  unfoldable pub handle_udp_friend_cancel : String → Daemon → Daemon
  unfolding release_pending_first unfriend_if_unconfirmed
  handle_udp_friend_cancel claimed s =
      unfriend_if_unconfirmed env claimed
        (record s { pending = (release_pending_first claimed s.pending).1 })

  unfoldable pub handle_udp_friend_reject : String → Daemon → Daemon
  unfolding unfriend_if_unconfirmed
  handle_udp_friend_reject claimed s = unfriend_if_unconfirmed env claimed (answered claimed s)

  unfoldable pub handle_verified : String → Datagram → PacketKind → Daemon → Daemon
  unfolding handle_udp_friend_request handle_udp_friend_accept handle_udp_friend_cancel
      handle_udp_friend_reject do_unfriend
  handle_verified claimed d friend_request s = handle_udp_friend_request claimed d s
  handle_verified claimed d friend_accept s = handle_udp_friend_accept claimed d s
  handle_verified claimed d friend_cancel s = handle_udp_friend_cancel claimed s
  handle_verified claimed d friend_reject s = handle_udp_friend_reject claimed s
  handle_verified claimed d friend_unfriend s = do_unfriend w env claimed s

  -- Each handler: the check, then the work on the id that it gives.
  unfoldable pub handle_packet : Datagram → Daemon → Daemon
  unfolding verify_udp_friend_packet handle_verified
  handle_packet d s =
      let (claimed, seen) =
        verify_udp_friend_packet w.printer w.crypto env.now_ms env.saves (kind_name d.kind) d.packet
          s.seen in
      let s' = record s { seen = seen } in
      if str_eq claimed "" then s' else handle_verified claimed d d.kind s'
