-- ===== src/Friends/Mirror.antt =====
-- The ledger mirrors the confirmed friends, and what a restart makes of it.
use lan_chat.Base.{
  String, ◌≡◌, refl, false, List, [], ◌∷◌, arith, str_eq, eq_iff, eq_refl, if◌then◌else◌,
  Bool-cases, inl, inr,
}
use lan_chat.Dict.{Dict, has}
use lan_chat.Friends.Types.{Friend, Daemon, World, Env}
use lan_chat.Friends.Ledger.{
  is_friend, is_friend_in, is_listed, recovered, reconcile_friends_from_ledger, restarted,
}
use lan_chat.Friends.Command.{Event, step, run}
use lan_chat.Friends.Lists.{is_friend_in-append}
use lan_chat.Friends.Moves.{still, befriend, part}
use lan_chat.Friends.Events.{step-Move}

abbrev pub IsMirrored : Daemon → Type 0
IsMirrored s = (k : String) → is_friend k s ≡ has k s.ledger

step-IsMirrored : (w : World) (e : Event) (s : Daemon) → IsMirrored s → IsMirrored (step w e s)
step-IsMirrored w e s h k = elim (step-Move w e s) [
  | still a o ↦ ground (arith, (a k).0, (a k).1, h k)
  | befriend p m a o ↦ ground (arith, (a k).0, (a k).1, h k)
  | part p a o ↦ ground (arith, (a k).0, (a k).1, h k)
]

-- The ledger has exactly the confirmed friends, after any events of a daemon where it had.
pub run-IsMirrored :
    (w : World) (es : List Event) (s : Daemon) → IsMirrored s → IsMirrored (run w es s)
unfolding run
run-IsMirrored w [] s h = h
run-IsMirrored w (e ∷ es) s h = run-IsMirrored w es (step w e s) (step-IsMirrored w e s h)

module _ (k : String) where
  is_friend_in-recovered :
      (current : List Friend) (ledger : Dict String)
      → str_eq k "" ≡ false
      → is_friend_in k (recovered current ledger)
        ≡ (if is_listed k current then false else has k ledger)
  unfolding is_friend_in recovered has
  is_friend_in-recovered current [] n = ground arith
  is_friend_in-recovered current ((pid, name) ∷ ledger) n =
      let rest = is_friend_in-recovered current ledger n in
      elim (Bool-cases (str_eq pid k)) [
        | inl here ↦ rw ((eq_iff pid k).0 here) (ground (arith, rest, n, eq_refl k))
        | inr other ↦ ground (arith, rest, n, other)
      ]

  listed-is_friend_in : (fs : List Friend) → is_listed k fs ≡ false → is_friend_in k fs ≡ false
  unfolding is_listed is_friend_in
  listed-is_friend_in [] n = refl
  listed-is_friend_in (f ∷ fs) n = ground (arith, n, listed-is_friend_in fs)

  is_friend-restarted :
      (env : Env) (s : Daemon)
      → str_eq k "" ≡ false
      → is_friend k (restarted env s)
        ≡ (if is_listed k s.config_file then is_friend_in k s.config_file else has k s.ledger)
  unfolding restarted reconcile_friends_from_ledger
  is_friend-restarted env s n =
      let joined = is_friend_in-append k s.config_file (recovered s.config_file s.ledger) in
      let back = is_friend_in-recovered s.config_file s.ledger n in
      let absent = listed-is_friend_in s.config_file in ground (arith, joined, back, absent)

-- From a daemon whose ledger has exactly the confirmed friends: whatever happens and whatever the
-- configuration file then holds, a restart finds every confirmed friend that the file does not list, from
-- the ledger; of a peer that the file lists, what it says counts, also where it says that the peer is not
-- confirmed. The blank id is excepted.
pub restarted-run :
    (w : World) (es : List Event) (s : Daemon) (env : Env) (config : List Friend) (k : String)
    → IsMirrored s
    → str_eq k "" ≡ false
    → is_friend k (restarted env (record (run w es s) { config_file = config }))
      ≡ (if is_listed k config then is_friend_in k config else is_friend k (run w es s))
restarted-run w es s env config k h n =
    rw (run-IsMirrored w es s h k)
      (is_friend-restarted k env (record (run w es s) { config_file = config }) n)
