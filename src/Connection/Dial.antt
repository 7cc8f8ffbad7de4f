-- ===== src/Connection/Dial.antt =====
-- `conn_loop`: the rounds in which the daemon dials its peers, and `_peer_dial_targets`. Times are
-- milliseconds.
use lan_chat.Base.{
  ℕ, ◌+◌, ◌*◌, String, Bool, false, not, ◌&&◌, Option, none, some, List, [], ◌∷◌, ltb, min, str_eq,
  if◌then◌else◌,
}
use lan_chat.Dict.{Dict, has, insert}
use lan_chat.Friends.Types.{Friend, Peer, Daemon}
use lan_chat.Connection.Active.{Payload, Conn, maybe_set_active}

abbrev pub first_backoff : ℕ
first_backoff = 2000

abbrev pub reconnect_max_backoff : ℕ
reconnect_max_backoff = 16000

-- The addresses of the peers on the network, then those of the confirmed friends that are not there;
-- ports are left out.
abbrev pub addresses : Dict Peer → Dict String
addresses [] = []
addresses ((pid, p) ∷ ps) = (pid, p.address) ∷ addresses ps

unfoldable pub with_friend_targets : List Friend → Dict String → Dict String
with_friend_targets [] targets = targets
with_friend_targets (f ∷ fs) targets =
    let more = insert f.id f.address targets in
    with_friend_targets fs
      (if f.confirmed && not (str_eq f.address "") && not (has f.id targets) then more else targets)

unfoldable pub peer_dial_targets : Daemon → Dict String
unfolding with_friend_targets
peer_dial_targets s = with_friend_targets s.friends (addresses s.peers)

-- The connection to a peer. `dialing` is only true inside a round.
pub record Link : Type 0 where
  pub conn : Conn
  pub next_try : ℕ
  pub backoff : ℕ

unfoldable pub is_due : ℕ → Link → Bool
is_due now l = elim l.conn.sock [ none ↦ not (ltb now l.next_try) | some s ↦ false ]

-- A dial at `now`: the socket, or none where the connection fails; `announces` is false where our
-- identity cannot be sent.
unfoldable pub dial : (Payload → Bool) → String → String → ℕ → Option ℕ → Bool → Link → Link
unfolding maybe_set_active
dial sends host pid now none announces l =
    let backoff = min (l.backoff * 2) reconnect_max_backoff in
    record l { backoff = backoff; next_try = now + backoff }
dial sends host pid now (some s) announces l =
    let (ok, c) = maybe_set_active sends host pid s host l.conn in
    if announces && ok then record { conn = c; next_try = 0; backoff = first_backoff } else l

-- The round of one peer.
unfoldable pub dial_round :
    (Payload → Bool) → String → String → Bool → ℕ → Option ℕ → Bool → Link → Link
unfolding dial
dial_round sends host pid online now socket announces l =
    let dialed = dial sends host pid now socket announces l in
    if online && not (str_eq pid host) && is_due now l then dialed else l
