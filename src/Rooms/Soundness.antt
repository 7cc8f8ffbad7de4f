-- ===== src/Rooms/Soundness.antt =====
-- The rooms of a host stay sound, whatever arrives and whatever the user does.
use mathlib.Core.Path.{subst}
use lan_chat.Base.{
  String, ◌≡◌, refl, sym, ◌∙◌, inl, inr, true, some, List, [], ◌∷◌, arith, str_eq, eq_iff, eq_refl,
  Bool-cases,
}
use lan_chat.Dict.{
  Dict, lookup, insert, erase, has, lookup-insert, lookup-erase, has-insert, has-erase,
}
use lan_chat.Rooms.Types.{Room, Rooms, Env, owned, cached, load_rooms}
use lan_chat.Rooms.Owner.{create_room, new_room, room_name}
use lan_chat.Rooms.Command.{Event, step, run}
use lan_chat.Rooms.Machine.{
  Step, stay, ticket, enter, resync, expel, change, switch, Change, same, edit, cache_in, cache_out,
  leave_cached, disband_cached, disbanded,
}
use lan_chat.Rooms.Commands.{IsOwn, IsSound, IsOf, changed, made, gave_up, reloaded, step-Outcome}

module _ {ev : Event} {k : String} {r u : Room} where
  -- A step keeps the id and the owner of a room, and the owner on the roster.
  pub Step-keeps :
      Step ev k r u
      → (u.room_id ≡ r.room_id)
        × (u.owner ≡ r.owner)
        × (has r.owner r.members ≡ true → has r.owner u.members ≡ true)
  Step-keeps (stay e) = rw e (refl, refl, λ h. h)
  Step-keeps (ticket peer now ok may e) = rw e (refl, refl, λ h. h)
  Step-keeps (enter peer m ok new out in_ e) =
      rw e (refl, refl, λ h. ground (arith, has-insert peer r.owner m r.members, h))
  Step-keeps (resync peer ok h e) = rw e (refl, refl, λ h. h)
  Step-keeps (expel peer ok in_ n e) =
      rw e (
        refl,
        refl,
        λ h. ground (arith, has-erase peer r.owner r.members, h, eq_iff peer r.owner, n),
      )
  Step-keeps (change peer m m' ok h e) =
      rw e (refl, refl, λ h. ground (arith, has-insert peer r.owner m' r.members, h))
  Step-keeps (switch enabled ok e) = rw e (refl, refl, λ h. h)

  Step-IsOwn : (host : String) → Step ev k r u → IsOwn host k r → IsOwn host k u
  Step-IsOwn host st own =
      let keeps = Step-keeps st in
      let at_home : has r.owner r.members ≡ true = rw own.owned_here own.inside in
      record {
        id = keeps.0 ∙ own.id;
        owned_here = keeps.1 ∙ own.owned_here;
        inside = rw⁻¹ own.owned_here (keeps.2 at_home);
      }

-- What is said of every room of a table.
abbrev pub Each : (String → Room → Type 0) → Dict Room → Type 0
Each P d = (k : String) (r : Room) → lookup k d ≡ some r → P k r

module _ (P : String → Room → Type 0) where
  pub Each-insert :
      (k : String) (u : Room) (d : Dict Room) → P k u → Each P d → Each P (insert k u d)
  Each-insert k u d p h j r e =
      let e' = sym (lookup-insert k j u d) ∙ e in
      elim (Bool-cases (str_eq k j)) [
        | inl here ↦
            let key = (eq_iff k j).0 here in
            let value : u ≡ r = ground (arith, e', here) in rw⁻¹ (key, value) p
        | inr other ↦ h j r (ground (arith, e', other))
      ]

  Each-erase : (k : String) (d : Dict Room) → Each P d → Each P (erase k d)
  Each-erase k d h j r e = h j r (ground (arith, sym (lookup-erase k j d) ∙ e))

module _ (host : String) where
  made-IsSound :
      (env : Env) (name : String) (s : Rooms)
      → env.host_id ≡ host
      → IsSound host s
      → IsSound host (create_room env name s)
  unfolding create_room has
  made-IsSound env name s of h = record {
    own =
        Each-insert (IsOwn host) env.fresh (new_room env (room_name env name)) s.rooms
          (record { id = refl; owned_here = of; inside = ground (arith, of, eq_refl host) }) h.own;
    copies = h.copies;
    saved = refl;
    saved_copies = h.saved_copies;
  }

  Change-IsSound : {ev : Event} {s s' : Rooms} → Change ev s s' → IsSound host s → IsSound host s'
  Change-IsSound (same e) h = rw e h
  Change-IsSound {s} (edit owned k r u e st q) h = rw q (record {
    own = Each-insert (IsOwn host) k u s.rooms (Step-IsOwn host st (h.own k r e)) h.own;
    copies = h.copies;
    saved = refl;
    saved_copies = h.saved_copies;
  })
  Change-IsSound {s} (edit cached k r u e st q) h = rw q (record {
    own = h.own;
    copies =
        Each-insert (λ k r. r.room_id ≡ k) k u s.rooms_cache ((Step-keeps st).0 ∙ h.copies k r e)
          h.copies;
    saved = refl;
    saved_copies = h.saved_copies;
  })
  Change-IsSound {s} (cache_in k r id q) h =
      let copies = Each-insert (λ k r. r.room_id ≡ k) k r s.rooms_cache id h.copies in
      rw q (record { own = h.own; copies = copies; saved = h.saved; saved_copies = copies })
  Change-IsSound {s} (cache_out k q) h =
      let copies = Each-erase (λ k r. r.room_id ≡ k) k s.rooms_cache h.copies in
      rw q (record { own = h.own; copies = copies; saved = h.saved; saved_copies = copies })
  Change-IsSound {s} (leave_cached k id u e q) h =
      let copies = drop_copy k id u e s.rooms_cache h.copies in
      rw q (record { own = h.own; copies = copies; saved = h.saved; saved_copies = copies })
    where
      drop_copy :
          (k id : String) (u : Room)
          → id ≡ k
          → (d : Dict Room) → Each (λ k r. r.room_id ≡ k) d
          → Each (λ k r. r.room_id ≡ k) (erase id (insert k u d))
      drop_copy k id u e d h j r f = h j r (
          ground (
            arith,
            f,
            e,
            eq_iff k j,
            eq_iff id j,
            lookup-erase id j (insert k u d),
            lookup-insert k j u d,
          ))
  Change-IsSound {s} (disband_cached k id u e f n q) h = rw q (record {
    own = Each-erase (IsOwn host) id s.rooms h.own;
    copies = Each-insert (λ k r. r.room_id ≡ k) k u s.rooms_cache e h.copies;
    saved = refl;
    saved_copies = h.saved_copies;
  })

  disbanded-IsSound :
      (k id : String) (u : Room) (s : Rooms)
      → id ≡ k
      → IsSound host s
      → IsSound host (disbanded k id u s)
  disbanded-IsSound k id u s e h = record {
    own = λ j r f. h.own j r (
        ground (
          arith,
          f,
          e,
          eq_iff k j,
          eq_iff id j,
          lookup-erase id j (insert k u s.rooms),
          lookup-insert k j u s.rooms,
        ));
    copies = h.copies;
    saved = refl;
    saved_copies = h.saved_copies;
  }

  pub step-IsSound :
      (e : Event) (s : Rooms) → IsOf host e → IsSound host s → IsSound host (step e s)
  unfolding load_rooms
  step-IsSound e s of h = elim (step-Outcome host e s h of) [
    | changed c ↦ Change-IsSound c h
    | made env name q f ↦ rw f (made-IsSound env name s (subst (IsOf host) q of) h)
    | gave_up env k id u q f g ↦ rw g (disbanded-IsSound k id u s f h)
    | reloaded q ↦ rw q (record {
      own = rw h.saved h.own;
      copies = h.saved_copies;
      saved = refl;
      saved_copies = h.saved_copies;
    })
  ]

  abbrev pub AllOf : List Event → Type 0
  AllOf [] = Unit {0}
  AllOf (e ∷ es) = IsOf host e × AllOf es

  -- After any events of a host, its rooms are sound: those of the table stand under their ids, are
  -- owned by the host, who is on their roster, the file holds the same, and the copies of other rooms
  -- stand under their ids.
  pub run-IsSound :
      (es : List Event) (s : Rooms) → AllOf es → IsSound host s → IsSound host (run es s)
  unfolding run
  run-IsSound [] s of h = h
  run-IsSound (e ∷ es) s of h = run-IsSound es (step e s) of.1 (step-IsSound e s of.0 h)
