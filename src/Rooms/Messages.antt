-- ===== src/Rooms/Messages.antt =====
-- Each message that arrives makes one of the changes.
use mathlib.Core.Path.{subst}
use lan_chat.Base.{
  eq_of_some, ltb, String, ◌≡◌, refl, sym, ap, ◌∙◌, inl, inr, Bool, true, false, not, ◌||◌, none,
  some, arith, str_eq, eq_iff, if◌then◌else◌, Bool-cases, Option-cases,
}
use lan_chat.Dict.{lookup, insert, erase, has, insert-insert, lookup-insert_self}
use lan_chat.Rooms.Types.{
  Member, Room, Rooms, RoomMsg, Env, owned, put_room, persist_owner, bump, get_room, clipped,
  is_color,
}
use lan_chat.Rooms.Owner.{owner_admit, admitted, new_member}
use lan_chat.Rooms.Handle.{
  handle_state, handle_invite, handle_join, handle_add, handle_color_set, handle_remove,
  handle_leave, own_room, stub,
}
use lan_chat.Rooms.Command.{Event}
use lan_chat.Rooms.Rights.{CanInvite, Invites, MayInvite, Joins, Expels, Recasts}
use lan_chat.Rooms.Machine.{stay, enter, resync, Change, same, edit, cache_in, cache_out}
use lan_chat.Rooms.Changes.{invite-Change, remove-Change, color-Change}

pub own_room-lookup :
    (env : Env) (k : String) (s : Rooms) (r : Room)
    → own_room env k s ≡ some r
    → (lookup k s.rooms ≡ some r) × (r.owner ≡ env.host_id)
own_room-lookup env k s r h = elim (Option-cases (lookup k s.rooms)) [
  | inl e ↦ absurd (ground (arith, e, h))
  | inr (x, e) ↦ elim (Bool-cases (str_eq x.owner env.host_id)) [
    | inl own ↦
        let same : x ≡ r = ground (arith, e, own, h) in
        (e ∙ ap some same, ap (λ y. y.owner) (sym same) ∙ (eq_iff x.owner env.host_id).0 own)
    | inr other ↦ absurd (ground (arith, e, other, h))
  ]
]

module _ (ev : Event) (env : Env) (m : RoomMsg) (s : Rooms) where
  pub state-Change : (verified : String) → Change ev s (handle_state m verified s)
  unfolding handle_state
  state-Change verified = elim (Option-cases m.room) [
    | inl e ↦ rw (handle_state, e) (same refl)
    | inr (room, e) ↦ elim (Bool-cases (str_eq room.room_id m.room_id)) [
      | inr other ↦ rw (handle_state, e, other) (same refl)
      | inl id ↦ elim (Option-cases (get_room m.room_id s)) [
        | inl g ↦ rw (handle_state, e, id, g) (same refl)
        | inr ((p, recorded), g) ↦
            let newer : Bool = elim (lookup m.room_id s.rooms_cache) [
              | none ↦ false
              | some mine ↦ ltb room.seq mine.seq
            ] in
            elim (Bool-cases
              (not (str_eq recorded.owner verified) || has m.room_id s.rooms || newer)) [
                | inl drops ↦ rw (handle_state, e, id, g, drops) (same refl)
                | inr takes ↦
                    rw (handle_state, e, id, g, takes)
                      (cache_in m.room_id room ((eq_iff room.room_id m.room_id).0 id) refl)
              ]
      ]
    ]
  ]

  pub invite_msg-Change : Change ev s (handle_invite env m s)
  unfolding handle_invite
  invite_msg-Change = elim (Bool-cases (has m.room_id s.rooms_cache || has m.room_id s.rooms)) [
    | inl known ↦ rw (handle_invite, known) (same refl)
    | inr new ↦ rw (handle_invite, new) (cache_in m.room_id (stub env m) refl refl)
  ]

  pub leave_msg-Change : Expels ev m.room_id m.from → Change ev s (handle_leave env m s).0
  unfolding handle_leave
  leave_msg-Change ok = elim (Option-cases (own_room env m.room_id s)) [
    | inl e ↦ rw (handle_leave, e) (same refl)
    | inr (r, e) ↦ rw (handle_leave, e) (remove-Change ev env owned m.room_id s m.from ok)
  ]

  can_invite_there :
      (r : Room)
      → (elim (lookup m.from r.members) as (λ _. Bool) [ none ↦ false | some mb ↦ mb.can_invite ])
        ≡ true
      → CanInvite m.from r
  can_invite_there r h = elim (Option-cases (lookup m.from r.members)) [
    | inl e ↦ absurd (ground (arith, e, h))
    | inr (mb, e) ↦ (mb, e, ground (arith, e, h))
  ]

  pub add_msg-Change :
      (env.is_trusted m.peer ≡ true → Invites ev m.peer)
      → ((r : Room) → CanInvite m.from r → MayInvite ev m.room_id r)
      → Change ev s (handle_add env m s).0
  unfolding handle_add
  add_msg-Change ok may = elim (Option-cases (own_room env m.room_id s)) [
    | inl e ↦ rw (handle_add, e) (same refl)
    | inr (r, e) ↦
        let can_add : Bool = elim (lookup m.from r.members) [
          | none ↦ false
          | some member ↦ member.can_invite
        ] in
        elim (Bool-cases (not can_add || (str_eq m.peer "" || not (env.is_trusted m.peer)))) [
          | inl refused ↦ rw (handle_add, e, refused) (same refl)
          | inr allows ↦
              rw (handle_add, e, allows)
                (invite-Change ev env owned m.room_id s m.peer (ok (ground (arith, allows))) (λ x f.
                  may x (
                    subst (CanInvite m.from)
                      (eq_of_some (sym (own_room-lookup env m.room_id s r e).0 ∙ f))
                      (can_invite_there r (ground (arith, allows))))))
        ]
  ]

  pub color_msg-Change :
      ((mb : Member)
        → Recasts ev m.room_id m.from mb
            (record mb { color = record { token = clipped 32 m.token; hex = m.hex } }))
      → Change ev s (handle_color_set env m s).0
  unfolding handle_color_set
  color_msg-Change ok = elim (Option-cases (get_room m.room_id s)) [
    | inl e ↦ rw (handle_color_set, e) (same refl)
    | inr ((p, r), e) ↦
        let token = clipped 32 m.token in
        elim (Bool-cases (
          not (str_eq r.owner env.host_id)
          || not (has m.from r.members)
          || not (is_color token m.hex))) [
            | inl refused ↦ rw (handle_color_set, e, refused) (same refl)
            | inr allows ↦
                rw (handle_color_set, e, allows)
                  (color-Change ev env p m.room_id s m.from token m.hex ok)
          ]
  ]

  pub remove_msg-Change : (verified : String) → Change ev s (handle_remove m verified s)
  unfolding handle_remove
  remove_msg-Change verified = elim (Option-cases (get_room m.room_id s)) [
    | inl e ↦ rw (handle_remove, e) (same refl)
    | inr ((p, r), e) ↦ elim (Bool-cases (str_eq r.owner verified)) [
      | inl own ↦ rw (handle_remove, e, own) (cache_out m.room_id refl)
      | inr other ↦ rw (handle_remove, e, other) (same refl)
    ]
  ]

  put_twice :
      (k : String) (u w : Room)
      → persist_owner (put_room owned k u (persist_owner (put_room owned k w s)))
        ≡ persist_owner (put_room owned k u s)
  put_twice k u w = ap (λ d. record s { rooms = d; rooms_file = d }) (insert-insert k u w s.rooms)

  admit_after :
      (x : Room) (s2 : Rooms)
      → lookup m.room_id s2.rooms ≡ some x
      → (owner_admit env owned m.room_id m.from m.from_name s2).0
        ≡ persist_owner (put_room owned m.room_id (admitted env m.from m.from_name x) s2)
  unfolding owner_admit
  admit_after x s2 e = rw (owner_admit, e)

  pub join_msg-Change :
      (env.is_trusted m.from ≡ true → Joins ev m.room_id m.from)
      → Change ev s (handle_join env m s).0
  unfolding handle_join
  join_msg-Change ok = elim (Option-cases (own_room env m.room_id s)) [
    | inl e ↦ rw (handle_join, e) (same refl)
    | inr (r, e) ↦
        let found = (own_room-lookup env m.room_id s r e).0 in
        let spent : Room = record r { invited = erase m.from r.invited } in
        let again = lookup-insert_self m.room_id spent s.rooms in
        elim (Bool-cases (env.is_trusted m.from)) [
          | inr stranger ↦ rw (handle_join, e, stranger) (same refl)
          | inl friend ↦ elim (Bool-cases (has m.from r.members)) [
            | inl inside ↦ elim (Bool-cases (has m.from r.invited)) [
              | inl ticket ↦
                  rw (handle_join, e, friend, ticket, inside)
                    (edit owned m.room_id r spent found (resync m.from (ok friend) inside refl) (
                      admit_after spent (persist_owner (put_room owned m.room_id spent s)) again
                      ∙ rw inside (put_twice m.room_id spent spent)))
              | inr none_left ↦
                  rw (handle_join, e, friend, none_left, inside)
                    (edit owned m.room_id r r found (stay refl) (admit_after r s found ∙ rw inside))
            ]
            | inr outside ↦ elim (Bool-cases (has m.from r.invited)) [
              | inr refused ↦ rw (handle_join, e, friend, outside, refused) (same refl)
              | inl ticket ↦
                  let name = if str_eq m.from_name "" then env.peer_name m.from else m.from_name in
                  let u =
                    bump (record spent {
                      members = insert m.from (new_member name false) r.members;
                    }) in
                  rw (handle_join, e, friend, ticket, outside)
                    (edit owned m.room_id r u found
                      (enter m.from (new_member name false) (ok friend) refl outside ticket refl)
                      (admit_after spent (persist_owner (put_room owned m.room_id spent s)) again
                        ∙ rw outside (put_twice m.room_id u spent)))
            ]
          ]
        ]
  ]
