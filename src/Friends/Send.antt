-- ===== src/Friends/Send.antt =====
-- server.py's `send_message`, `find_peer` and `peer_snapshot`.
use Prim.Native.Nat.{Ordering}
use Prim.Native.String.{compare}
use lan_chat.Base.{String, Bool, true, false, Option, none, some, List, [], ◌∷◌}
use lan_chat.Dict.{lookup}
use lan_chat.History.Types.{Attachment, Message}
use lan_chat.History.Store.{append_history}
use lan_chat.Friends.Types.{Peer, Daemon, World, Env, direct, send}

-- The message that goes out; the clock and the names that it carries are left out.
abbrev pub outgoing_message : World → Env → String → String → Option Attachment → Message
outgoing_message w env peer_id text attachment = record {
  mid = some env.fresh;
  from = some w.crypto.host_id;
  to = some peer_id;
  room = none;
  text = text;
  edited = false;
  attachment = attachment;
}

-- The message is handed to the peer's connection, which writes or holds it, and is kept in the history.
unfoldable pub send_message :
    World → Env → String → String → Option Attachment → Daemon → Bool × Daemon
unfolding append_history
send_message w env peer_id text attachment s =
    let m = outgoing_message w env peer_id text attachment in
    let s' = send (direct peer_id m) s in
    (true, record s' { store = append_history w.lib env.hist m s.store })

abbrev pub find_peer : String → Daemon → Option Peer
find_peer pid s = lookup pid s.peers

abbrev pub values {ℓ} : {A : Type ℓ} → List (String × A) → List A
values [] = []
values ((k, a) ∷ d) = a ∷ values d

-- Sorting by the name in lower case; peers of one name keep their order.
abbrev pub put_in_order : (String → String) → Peer → List Peer → List Peer
put_in_order lower p [] = p ∷ []
put_in_order lower p (q ∷ qs) = elim (compare (lower p.name) (lower q.name)) [
  | Ordering.gt ↦ q ∷ put_in_order lower p qs
  | _ ↦ p ∷ q ∷ qs
]

abbrev pub in_order : (String → String) → List Peer → List Peer
in_order lower [] = []
in_order lower (p ∷ ps) = put_in_order lower p (in_order lower ps)

unfoldable pub peer_snapshot : (String → String) → Daemon → List Peer
peer_snapshot lower s = in_order lower (values s.peers)
