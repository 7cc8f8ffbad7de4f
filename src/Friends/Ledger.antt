-- ===== src/Friends/Ledger.antt =====
-- server.py's friends list, the ledger that mirrors it, and the repair at a start.
use lan_chat.Base.{
  String, Bool, true, false, not, ◌&&◌, List, [], ◌∷◌, ◌++◌, str_eq, if◌then◌else◌, keep,
}
use lan_chat.Dict.{Dict, insert, erase}
use lan_chat.Friends.Types.{Friend, Daemon, World, Env, discard}
use lan_chat.History.Store.{clear_history_for_peer}

-- The tests of `is_friend`, `is_pending` and `is_trusted` on the list.
unfoldable pub is_friend_in : String → List Friend → Bool
is_friend_in pid [] = false
is_friend_in pid (f ∷ fs) =
    let rest = is_friend_in pid fs in if str_eq f.id pid && f.confirmed then true else rest

unfoldable pub is_pending_in : String → List Friend → Bool
is_pending_in pid [] = false
is_pending_in pid (f ∷ fs) =
    let rest = is_pending_in pid fs in if str_eq f.id pid && not f.confirmed then true else rest

unfoldable pub is_listed : String → List Friend → Bool
is_listed pid [] = false
is_listed pid (f ∷ fs) = let rest = is_listed pid fs in if str_eq f.id pid then true else rest

abbrev pub is_friend : String → Daemon → Bool
is_friend pid s = is_friend_in pid s.friends

abbrev pub is_pending : String → Daemon → Bool
is_pending pid s = is_pending_in pid s.friends

abbrev pub is_trusted : String → Daemon → Bool
is_trusted pid s = s.online && is_listed pid s.friends

-- The list after `_save_config`: the file follows where it can be written.
abbrev pub with_friends : Env → List Friend → Daemon → Daemon
with_friends env fs s = record s {
  friends = fs;
  config_file = if env.saves then fs else s.config_file;
}

-- The first record of the id is changed; a new one goes to the end.
unfoldable pub put_friend : Friend → List Friend → List Friend
put_friend new [] = new ∷ []
put_friend new (f ∷ fs) =
    let rest = put_friend new fs in if str_eq f.id new.id then new ∷ fs else f ∷ rest

-- `_ledger_forget`, then `_fingerprint_upsert`
abbrev pub recorded : String → String → Dict String → Dict String
recorded pid name ledger = insert pid name (erase pid ledger)

unfoldable pub add_friend : Env → String → String → String → Bool → Daemon → Daemon
unfolding put_friend
add_friend env pid address name confirmed s =
    let new : Friend = record { id = pid; address = address; name = name; confirmed = confirmed } in
    record (with_friends env (put_friend new s.friends) s) {
      ledger = if confirmed then recorded pid name s.ledger else s.ledger;
    }

unfoldable pub unfriend : Env → String → Daemon → Daemon
unfolding discard
unfriend env pid s = record (with_friends env (keep (λ f. not (str_eq f.id pid)) s.friends) s) {
  ledger = erase pid s.ledger;
  request_outgoing = discard pid s.request_outgoing;
}

unfoldable pub do_unfriend : World → Env → String → Daemon → Daemon
unfolding unfriend clear_history_for_peer
do_unfriend w env pid s =
    let s' = unfriend env pid s in
    record s' { store = (clear_history_for_peer w.lib env.hist pid s'.store).1 }

-- What the first record of the id says.
unfoldable pub first_is_pending : String → List Friend → Bool
first_is_pending pid [] = false
first_is_pending pid (f ∷ fs) =
    let rest = first_is_pending pid fs in if str_eq f.id pid then not f.confirmed else rest

unfoldable pub unfriend_if_unconfirmed : Env → String → Daemon → Daemon
unfolding unfriend first_is_pending
unfriend_if_unconfirmed env pid s =
    let s' = unfriend env pid s in if first_is_pending pid s.friends then s' else s

-- The friends that the ledger has and the list `current` lacks.
unfoldable pub recovered : List Friend → Dict String → List Friend
unfolding is_listed
recovered current [] = []
recovered current ((pid, name) ∷ ledger) =
    let rest = recovered current ledger in
    if not (str_eq pid "") && not (is_listed pid current)
    then record {
      id = pid;
      address = "";
      name = if str_eq name "" then "Unknown" else name;
      confirmed = true;
    }
      ∷ rest
    else rest

abbrev is_empty : List Friend → Bool
is_empty [] = true
is_empty (f ∷ fs) = false

unfoldable pub reconcile_friends_from_ledger : Env → Daemon → Daemon
unfolding recovered
reconcile_friends_from_ledger env s =
    let back = recovered s.friends s.ledger in
    record s {
      friends = s.friends ++ back;
      config_file = if not (is_empty back) && env.saves then s.friends ++ back else s.config_file;
    }

-- A start as far as the friends go: what is only in memory is gone, the configuration is read, and the
-- friends are repaired. The files of the other modules are read by these.
unfoldable pub restarted : Env → Daemon → Daemon
unfolding reconcile_friends_from_ledger
restarted env s = reconcile_friends_from_ledger env (record s {
  friends = s.config_file;
  peers = [];
  request_outgoing = [];
  pending_sent = [];
  pending = record { pending_first = []; pending_first_bytes = [] };
  outbox = [];
})
