-- ===== src/Friends/Peers.antt =====
-- server.py's table of the peers that are on the network.
use lan_chat.Base.{
  ℕ, ◌+◌, ◌*◌, String, Bool, not, ◌&&◌, ◌||◌, none, some, List, [], ◌∷◌, str_eq, if◌then◌else◌,
  keep, ltb,
}
use lan_chat.Dict.{lookup, insert}
use lan_chat.Naming.{friendly_name}
use lan_chat.Friends.Types.{Friend, Peer, Daemon, World, Env}
use lan_chat.Friends.Ledger.{with_friends}

abbrev pub peer_timeout : ℕ
peer_timeout = 6

abbrev is_nameless : String → Bool
is_nameless name = str_eq name "" || str_eq name "Unknown"

-- The name of the first record of the id, where it has none.
unfoldable pub named_friend : String → String → List Friend → List Friend
named_friend pid name [] = []
named_friend pid name (f ∷ fs) =
    let rest = named_friend pid name fs in
    if str_eq f.id pid && is_nameless f.name then record f { name = name } ∷ fs else f ∷ rest

unfoldable pub needs_name : String → List Friend → Bool
needs_name pid [] = Bool.false
needs_name pid (f ∷ fs) =
    let rest = needs_name pid fs in
    if str_eq f.id pid && is_nameless f.name then Bool.true else rest

unfoldable pub sync_friend_name : Env → String → String → Daemon → Daemon
unfolding named_friend needs_name
sync_friend_name env pid name s =
    let s' = with_friends env (named_friend pid name s.friends) s in
    if needs_name pid s.friends then s' else s

unfoldable pub upsert_peer : Env → String → String → String → ℕ → Daemon → Daemon
unfolding sync_friend_name
upsert_peer env pid name address port s =
    let peer : Peer = record {
      id = pid;
      name = name;
      address = address;
      port = port;
      last_seen = env.now_ms;
    } in
    let s' = record s { peers = insert pid peer s.peers } in
    if is_nameless name then s' else sync_friend_name env pid name s'

unfoldable pub expire_peers : Env → Daemon → Daemon
expire_peers env s = record s {
  peers = keep (λ (_, p). not (ltb (p.last_seen + peer_timeout * 1000) env.now_ms)) s.peers;
}

-- The name of a peer: the one that it announced, or the friendly one of its id.
unfoldable pub peer_name : World → String → Daemon → String
unfolding friendly_name
peer_name w pid s = elim (lookup pid s.peers) [
  | none ↦ friendly_name w.digest pid
  | some p ↦ if str_eq p.name "" then friendly_name w.digest pid else p.name
]
