-- ===== src/Rooms/Refinement.antt =====
-- A daemon's handling of a room it owns is the state machine of one room.
use mathlib.Core.Path.{subst}
use lan_chat.Base.{
  suc, String, ◌≡◌, ◌⊎◌, refl, sym, ap, ◌∙◌, inl, inr, none, some, arith, str_eq, eq_iff,
  eq_of_some, Bool-cases,
}
use lan_chat.Dict.{
  Dict, lookup, insert, erase, lookup-insert, lookup-erase, lookup-insert_self, lookup-erase_self,
}
use lan_chat.Rooms.Types.{Room, Rooms, Env, owned, cached, load_rooms}
use lan_chat.Rooms.Owner.{create_room, new_room, room_name, wire_room}
use lan_chat.Rooms.Command.{Event, step, command, create, leave}
use lan_chat.Rooms.Machine.{
  Step, stay, ticket, enter, resync, expel, change, switch, Change, same, edit, cache_in, cache_out,
  leave_cached, disband_cached, disbanded,
}
use lan_chat.Rooms.Commands.{IsSound, IsOf, changed, made, gave_up, reloaded, step-Outcome}

-- A new room stands under the id.
abbrev pub IsFounded : Event → String → Dict Room → Type 0
IsFounded e k d =
    (env : Env) × (name : String) × (e ≡ command env (create name))
    × (env.fresh ≡ k)
    × (lookup k d ≡ some (new_room env (room_name env name)))

-- What becomes of a room of the authoritative table.
abbrev pub Advances : Event → String → Room → Dict Room → Type 0
Advances e k r d =
    ((u : Room) × (lookup k d ≡ some u) × Step e k r u)
    ⊎ ((env : Env) × (e ≡ command env (leave k)) × (lookup k d ≡ none))
    ⊎ IsFounded e k d

module _ (e : Event) (k : String) (s : Rooms) where
  founded :
      (env : Env) (name : String) (s' : Rooms)
      → e ≡ command env (create name)
      → s' ≡ create_room env name s
      → env.fresh ≡ k
      → IsFounded e k s'.rooms
  unfolding create_room
  founded env name s' p q here =
      let new = new_room env (room_name env name) in
      (
        env,
        name,
        p,
        here,
        ap (λ x. lookup k x.rooms) q
            ∙ ap (λ x. lookup k (insert x new s.rooms)) here
            ∙ lookup-insert_self k new s.rooms,
      )

module _ (e : Event) (k : String) (r : Room) (s : Rooms) (found : lookup k s.rooms ≡ some r) where
  unmoved : {d : Dict Room} → d ≡ s.rooms → Advances e k r d
  unmoved q = inl (r, ap (lookup k) q ∙ found, stay refl)

  edited :
      (j : String) (x u : Room) {d : Dict Room}
      → lookup j s.rooms ≡ some x
      → Step e j x u
      → d ≡ insert j u s.rooms
      → Advances e k r d
  edited j x u f st q = elim (Bool-cases (str_eq j k)) [
    | inl here ↦
        let key = (eq_iff j k).0 here in
        let room : x ≡ r = ground (arith, f, key, found) in
        inl (
          u,
          ap (lookup k) q ∙ rw key (lookup-insert_self k u s.rooms),
          subst (λ i. Step e i r u) key (subst (λ y. Step e j y u) room st),
        )
    | inr other ↦
        let rest : lookup k (insert j u s.rooms) ≡ some r =
          ground (arith, lookup-insert j k u s.rooms, other, found) in
        inl (r, ap (lookup k) q ∙ rest, stay refl)
  ]

  Change-Advances : (s' : Rooms) → Change e s s' → Advances e k r s'.rooms
  Change-Advances s' (same q) = unmoved (ap (λ x. x.rooms) q)
  Change-Advances s' (edit owned j x u f st q) = edited j x u f st (ap (λ y. y.rooms) q)
  Change-Advances s' (edit cached j x u f st q) = unmoved (ap (λ x. x.rooms) q)
  Change-Advances s' (cache_in j x f q) = unmoved (ap (λ x. x.rooms) q)
  Change-Advances s' (cache_out j q) = unmoved (ap (λ x. x.rooms) q)
  Change-Advances s' (leave_cached j id u f q) = unmoved (ap (λ x. x.rooms) q)
  Change-Advances s' (disband_cached j id u f g n q) =
      let there : lookup k (erase id s.rooms) ≡ some r =
        ground (arith, lookup-erase id k s.rooms, eq_iff id k, g, n, found) in
      inl (r, ap (λ x. lookup k x.rooms) q ∙ there, stay refl)

  left_room :
      (env : Env) (j id : String) (u : Room) (s' : Rooms)
      → e ≡ command env (leave j)
      → id ≡ j
      → s' ≡ disbanded j id u s
      → Advances e k r s'.rooms
  left_room env j id u s' p f q = elim (Bool-cases (str_eq j k)) [
    | inl here ↦
        let key = (eq_iff j k).0 here in
        let gone = lookup-erase_self k (insert j u s.rooms) in
        inr (
          inl (
            env,
            p ∙ ap (λ x. command env (leave x)) key,
            ap (λ x. lookup k x.rooms) q
                ∙ ap (λ x. lookup k (erase x (insert j u s.rooms))) (f ∙ key)
                ∙ gone,
          ))
    | inr other ↦
        let there : lookup k (erase id (insert j u s.rooms)) ≡ some r = ground (
          arith,
          lookup-erase id k (insert j u s.rooms),
          lookup-insert j k u s.rooms,
          f,
          eq_iff id k,
          eq_iff j k,
          other,
          found,
        ) in
        inl (r, ap (λ x. lookup k x.rooms) q ∙ there, stay refl)
  ]

  made_room :
      (env : Env) (name : String) (s' : Rooms)
      → e ≡ command env (create name)
      → s' ≡ create_room env name s
      → Advances e k r s'.rooms
  unfolding create_room
  made_room env name s' p q = elim (Bool-cases (str_eq env.fresh k)) [
    | inl here ↦ inr (inr (founded e k s env name s' p q ((eq_iff env.fresh k).0 here)))
    | inr other ↦
        let rest = lookup-insert env.fresh k (new_room env (room_name env name)) s.rooms in
        inl (r, ap (λ x. lookup k x.rooms) q ∙ ground (arith, rest, other, found), stay refl)
  ]

-- On the sound rooms of a host, whatever arrives and whatever its user does, a room of the table makes at
-- most one step, and one that the author of the event is entitled to in that room: a ticket of the user, or
-- of a member with the right to invite, for the peer that it names; the entry of the trusted author of a
-- join, who has a ticket and gets no right to invite; the removal of a member that the user names or that
-- leaves, never of the owner; a right that the user gives or takes; a colour that the user or the member
-- itself sets; or the switch of the colours by the user. Or the user leaves it and it is gone; or a new
-- room takes its id.
pub step-Advances :
    (host : String) (e : Event) (k : String) (r : Room) (s : Rooms)
    → IsSound host s
    → IsOf host e
    → lookup k s.rooms ≡ some r
    → Advances e k r (step e s).rooms
unfolding load_rooms
step-Advances host e k r s sound of found = elim (step-Outcome host e s sound of) [
  | changed c ↦ Change-Advances e k r s found (step e s) c
  | made env name p q ↦ made_room e k r s found env name (step e s) p q
  | gave_up env j id u p f q ↦ left_room e k r s found env j id u (step e s) p f q
  | reloaded q ↦ unmoved e k r s found (ap (λ x. x.rooms) q ∙ sound.saved)
]

-- A room that appears is a new one.
pub step-IsFounded :
    (host : String) (e : Event) (k : String) (s : Rooms)
    → IsSound host s
    → IsOf host e
    → lookup k s.rooms ≡ none
    → (lookup k (step e s).rooms ≡ none) ⊎ IsFounded e k (step e s).rooms
unfolding load_rooms create_room
step-IsFounded host e k s sound of absent = elim (step-Outcome host e s sound of) [
  | changed c ↦ inl (unchanged (step e s) c)
  | made env name p q ↦ elim (Bool-cases (str_eq env.fresh k)) [
    | inl here ↦ inr (founded e k s env name (step e s) p q ((eq_iff env.fresh k).0 here))
    | inr other ↦
        let rest = lookup-insert env.fresh k (new_room env (room_name env name)) s.rooms in
        inl (ap (λ x. lookup k x.rooms) q ∙ ground (arith, rest, other, absent))
  ]
  | gave_up env j id u p f q ↦ inl (
      ap (λ x. lookup k x.rooms) q
      ∙ ground (
        arith,
        lookup-erase id k (insert j u s.rooms),
        lookup-insert j k u s.rooms,
        f,
        eq_iff id k,
        eq_iff j k,
        absent,
      ))
  | reloaded q ↦ inl (ap (λ x. lookup k x.rooms) q ∙ ap (lookup k) sound.saved ∙ absent)
]
  where
    unchanged : (s' : Rooms) → Change e s s' → lookup k s'.rooms ≡ none
    unchanged s' (same q) = ap (λ x. lookup k x.rooms) q ∙ absent
    unchanged s' (edit owned j x u f st q) =
        ap (λ x. lookup k x.rooms) q
        ∙ ground (arith, lookup-insert j k u s.rooms, eq_iff j k, f, absent)
    unchanged s' (edit cached j x u f st q) = ap (λ x. lookup k x.rooms) q ∙ absent
    unchanged s' (cache_in j x f q) = ap (λ x. lookup k x.rooms) q ∙ absent
    unchanged s' (cache_out j q) = ap (λ x. lookup k x.rooms) q ∙ absent
    unchanged s' (leave_cached j id u f q) = ap (λ x. lookup k x.rooms) q ∙ absent
    unchanged s' (disband_cached j id u f g n q) =
        ap (λ x. lookup k x.rooms) q ∙ ground (arith, lookup-erase id k s.rooms, absent)

-- A step raises the number of the room by one, or changes tickets alone.
Step-seq :
    {e : Event} {k : String} {r u : Room}
    → Step e k r u
    → (u.seq ≡ suc r.seq) ⊎ (wire_room u ≡ wire_room r)
Step-seq (stay e) = inr (ap wire_room e)
Step-seq (ticket peer now ok may e) = inr (ap wire_room e)
Step-seq (enter peer m ok new o i e) = inl (ap (λ x. x.seq) e ∙ omega arith)
Step-seq (resync peer ok i e) = inr (ap wire_room e)
Step-seq (expel peer ok in_ n e) = inl (ap (λ x. x.seq) e ∙ omega arith)
Step-seq (change peer m m' ok l e) = inl (ap (λ x. x.seq) e ∙ omega arith)
Step-seq (switch enabled ok e) = inl (ap (λ x. x.seq) e ∙ omega arith)

-- A room of the table that is neither left nor founded anew by an event has the next number after it, or
-- its snapshot is the same as before.
pub step-seq :
    (host : String) (e : Event) (k : String) (r u : Room) (s : Rooms)
    → IsSound host s
    → IsOf host e
    → lookup k s.rooms ≡ some r
    → lookup k (step e s).rooms ≡ some u
    → ¬ IsFounded e k (step e s).rooms
    → (u.seq ≡ suc r.seq) ⊎ (wire_room u ≡ wire_room r)
step-seq host e k r u s sound of found f n = elim (step-Advances host e k r s sound of found) [
  | inl (x, g, st) ↦
      let same : x ≡ u = eq_of_some (sym g ∙ f) in
      subst (λ y. (y.seq ≡ suc r.seq) ⊎ (wire_room y ≡ wire_room r)) same (Step-seq st)
  | inr rest ↦ elim rest [
    | inl (env, q, gone) ↦ absurd (ground (arith, gone, f))
    | inr new ↦ absurd (n new)
  ]
]
