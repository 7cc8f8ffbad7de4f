-- ===== src/Rooms/Roster.antt =====
-- Who is on the roster of a room.
use mathlib.Core.Path.{subst}
use lan_chat.Base.{
  String, ◌≡◌, ◌≢◌, refl, sym, ◌∙◌, inl, inr, true, false, some, List, [], ◌∷◌, arith, str_eq,
  eq_iff, eq_refl, eq_of_some, Option-cases,
}
use lan_chat.Dict.{lookup, has, lookup-insert_self, has-insert, has-erase, has-lookup}
use lan_chat.Rooms.Types.{Room, Rooms, Env}
use lan_chat.Rooms.Owner.{owner_remove, removed, new_room, room_name}
use lan_chat.Rooms.Command.{Event, step, run, command, create, kick, room_command, command_owner}
use lan_chat.Rooms.Machine.{Step, stay, ticket, enter, resync, expel, change, switch}
use lan_chat.Rooms.Rights.{Invites}
use lan_chat.Rooms.Commands.{IsSound, IsOf}
use lan_chat.Rooms.Soundness.{AllOf, step-IsSound}
use lan_chat.Rooms.Refinement.{IsFounded, step-Advances, step-IsFounded}

-- Neither on the roster nor with a ticket.
abbrev pub IsOut : String → Room → Type 0
IsOut peer r = (has peer r.members ≡ false) × (has peer r.invited ≡ false)

-- Out of the room that stands under the id, if one does.
abbrev pub IsOutOf : String → String → Rooms → Type 0
IsOutOf peer k s = (r : Room) → lookup k s.rooms ≡ some r → IsOut peer r

module _ {ev : Event} {k : String} {r u : Room} where
  Step-IsOut : (peer : String) → ¬ Invites ev peer → Step ev k r u → IsOut peer r → IsOut peer u
  Step-IsOut peer n (stay e) h = rw e h
  Step-IsOut peer n (ticket p now ok may e) h =
      rw e (h.0, ground (arith, has-insert p peer now r.invited, h.1, eq_iff p peer, other p ok))
    where
      other : (p : String) → Invites ev p → p ≢ peer
      other p ok q = n (subst (Invites ev) q ok)
  Step-IsOut peer n (enter p m ok new out in_ e) h = rw e (
    ground (arith, has-insert p peer m r.members, h.0, h.1, in_, eq_iff p peer),
    ground (arith, has-erase p peer r.invited, h.1),
  )
  Step-IsOut peer n (resync p ok i e) h =
      rw e (h.0, ground (arith, has-erase p peer r.invited, h.1))
  Step-IsOut peer n (expel p ok i o e) h = rw e (
    ground (arith, has-erase p peer r.members, h.0),
    ground (arith, has-erase p peer r.invited, h.1),
  )
  Step-IsOut peer n (change p m m' ok l e) h =
      let there = has-lookup p m r.members l in
      rw e (ground (arith, has-insert p peer m' r.members, h.0, there, eq_iff p peer), h.1)
  Step-IsOut peer n (switch enabled ok e) h = rw e h

step-IsOutOf :
    (host peer k : String) (e : Event) (s : Rooms)
    → IsSound host s
    → IsOf host e
    → peer ≢ host
    → ¬ Invites e peer
    → IsOutOf peer k s
    → IsOutOf peer k (step e s)
unfolding has
step-IsOutOf host peer k e s sound of n o h u f = elim (Option-cases (lookup k s.rooms)) [
  | inl absent ↦ elim (step-IsFounded host e k s sound of absent) [
    | inl still ↦ absurd (ground (arith, still, f))
    | inr new ↦ founded_out new
  ]
  | inr (r, found) ↦ elim (step-Advances host e k r s sound of found) [
    | inl (x, g, st) ↦
        let same : x ≡ u = eq_of_some (sym g ∙ f) in
        subst (IsOut peer) same (Step-IsOut peer o st (h r found))
    | inr rest ↦ elim rest [
      | inl (env, q, gone) ↦ absurd (ground (arith, gone, f))
      | inr new ↦ founded_out new
    ]
  ]
]
  where
    of_creator : (env : Env) (name : String) → e ≡ command env (create name) → env.host_id ≡ host
    of_creator env name q = subst (IsOf host) q of

    founded_out : IsFounded e k (step e s).rooms → IsOut peer u
    founded_out (env, name, q, key, g) =
        let new = new_room env (room_name env name) in
        let same : new ≡ u = eq_of_some (sym g ∙ f) in
        let home = of_creator env name q in
        subst (IsOut peer) same (ground (arith, eq_iff env.host_id peer, home, n), refl)

-- No event gives the peer a ticket.
abbrev pub NoneInvites : String → List Event → Type 0
NoneInvites peer [] = Unit {0}
NoneInvites peer (e ∷ es) = (¬ Invites e peer) × NoneInvites peer es

run-IsOutOf :
    (host peer k : String) (es : List Event) (s : Rooms)
    → IsSound host s
    → AllOf host es
    → peer ≢ host
    → NoneInvites peer es
    → IsOutOf peer k s
    → IsOutOf peer k (run es s)
unfolding run
run-IsOutOf host peer k [] s sound of n o h = h
run-IsOutOf host peer k (e ∷ es) s sound of n o h =
    run-IsOutOf host peer k es (step e s) (step-IsSound host e s of.0 sound) of.1 n o.1
      (step-IsOutOf host peer k e s sound of.0 n o.0 h)

-- A member that its owner removes stays off the roster and has no ticket, through any later messages,
-- commands and restarts that do not invite it again.
pub kicked_stays_out :
    (host peer k : String) (env : Env) (r : Room) (es : List Event) (s : Rooms)
    → IsSound host s
    → env.host_id ≡ host
    → AllOf host es
    → peer ≢ host
    → lookup k s.rooms ≡ some r
    → has peer r.members ≡ true
    → NoneInvites peer es
    → IsOutOf peer k (run es (step (command env (kick k peer)) s))
unfolding step room_command command_owner owner_remove
kicked_stays_out host peer k env r es s sound home of n found inside o =
    run-IsOutOf host peer k es (step (command env (kick k peer)) s)
      (step-IsSound host (command env (kick k peer)) s home sound) of n o after
  where
    own_at_home : str_eq r.owner env.host_id ≡ true
    own_at_home = (eq_iff r.owner env.host_id).1 ((sound.own k r found).owned_here ∙ sym home)

    not_owner : str_eq peer r.owner ≡ false
    not_owner = ground (arith, eq_iff peer r.owner, (sound.own k r found).owned_here, n)

    after : IsOutOf peer k (step (command env (kick k peer)) s)
    after u f =
        let left : lookup k (step (command env (kick k peer)) s).rooms ≡ some (removed peer r) =
          rw
            (
              step, room_command, command_owner, found, own_at_home, owner_remove, found, not_owner,
              inside,
            )
            (lookup-insert_self k (removed peer r) s.rooms) in
        let same : removed peer r ≡ u = eq_of_some (sym left ∙ f) in
        subst (IsOut peer) same (
          ground (arith, has-erase peer peer r.members, eq_refl peer),
          ground (arith, has-erase peer peer r.invited, eq_refl peer),
        )
