-- ===== src/Rooms/Authority.antt =====
-- Only the owner of a room changes the copy that another daemon holds of it.
use lan_chat.Base.{
  ltb, String, ◌≡◌, ◌≢◌, sym, ap, ◌∙◌, inl, inr, Bool, false, not, ◌||◌, ◌&&◌, none, some, arith,
  str_eq, eq_iff, if◌then◌else◌, Bool-cases, Option-cases,
}
use lan_chat.Dict.{lookup, erase, has, lookup-insert, lookup-erase, has-lookup}
use lan_chat.Rooms.Types.{
  Color, Room, Rooms, RoomMsg, Kind, room_state, room_invite, room_state_req, room_file, room_leave,
  room_join, room_add, room_color_set, room_remove, room_file_status, other_kind, Env, Place, owned,
  cached, put_room, persist_owner, persist_cache, get_room, clipped, is_color,
}
use lan_chat.Rooms.Owner.{owner_admit, owner_invite, owner_remove, apply_member_color, with_member}
use lan_chat.Rooms.Handle.{
  handle_state, handle_invite, handle_join, handle_add, handle_color_set, handle_remove,
  handle_leave, handle_kind, handle_room_msg, own_room, stub, is_mismatch,
}
use lan_chat.Rooms.Commands.{get_room_cases}

-- What is asked of a snapshot that is taken.
pub record IsTaken (m : RoomMsg) (verified : String) (s : Rooms) (room : Room) : Type 0 where
  pub sent : m.room ≡ some room
  pub id : room.room_id ≡ m.room_id
  pub recorded :
      (p : Place) × (r : Room) × (get_room m.room_id s ≡ some (p, r)) × (r.owner ≡ verified)
  pub foreign : has m.room_id s.rooms ≡ false
  pub not_newer :
      (mine : Room) → lookup m.room_id s.rooms_cache ≡ some mine → ltb room.seq mine.seq ≡ false

pub handle_state_cases :
    (m : RoomMsg) (verified : String) (s : Rooms) (P : Rooms → Type 0)
    → P s
    → ((room : Room)
        → IsTaken m verified s room
        → P (persist_cache (put_room cached m.room_id room s)))
    → P (handle_state m verified s)
unfolding handle_state
handle_state_cases m verified s P kept taken = elim (Option-cases m.room) [
  | inl e ↦ rw (handle_state, e) kept
  | inr (room, e) ↦ elim (Bool-cases (str_eq room.room_id m.room_id)) [
    | inr other ↦ rw (handle_state, e, other) kept
    | inl id ↦ elim (Option-cases (get_room m.room_id s)) [
      | inl g ↦ rw (handle_state, e, id, g) kept
      | inr ((p, recorded), g) ↦
          let newer : Bool = elim (lookup m.room_id s.rooms_cache) [
            | none ↦ false
            | some mine ↦ ltb room.seq mine.seq
          ] in
          elim (Bool-cases
            (not (str_eq recorded.owner verified) || has m.room_id s.rooms || newer)) [
              | inl drops ↦ rw (handle_state, e, id, g, drops) kept
              | inr takes ↦
                  rw (handle_state, e, id, g, takes)
                    (taken room (record {
                      sent = e;
                      id = (eq_iff room.room_id m.room_id).0 id;
                      recorded =
                          (p, recorded, g, ground (arith, takes, eq_iff recorded.owner verified));
                      foreign = ground (arith, takes);
                      not_newer = λ mine f. ground (arith, takes, f);
                    }))
            ]
    ]
  ]
]

-- The owner's operations leave the cache as it is.
module _ (env : Env) (k : String) (s : Rooms) where
  cache-invite : (peer : String) → (owner_invite env owned k peer s).1.rooms_cache ≡ s.rooms_cache
  unfolding owner_invite
  cache-invite peer = ground (arith, Option-cases (lookup k s.rooms))

  cache-admit :
      (peer name : String) → (owner_admit env owned k peer name s).0.rooms_cache ≡ s.rooms_cache
  unfolding owner_admit
  cache-admit peer name = ground (arith, Option-cases (lookup k s.rooms))

  cache-color :
      (peer token hex : String)
      → (apply_member_color env owned k peer token hex s).0.rooms_cache ≡ s.rooms_cache
  unfolding apply_member_color
  cache-color peer token hex = ground (arith, Option-cases (lookup k s.rooms))

  cache-color_other :
      (j peer token hex : String)
      → str_eq k j ≡ false
      → lookup j (apply_member_color env cached k peer token hex s).0.rooms_cache
        ≡ lookup j s.rooms_cache
  unfolding apply_member_color
  cache-color_other j peer token hex n = elim (Option-cases (lookup k s.rooms_cache)) [
    | inl e ↦ rw (apply_member_color, e)
    | inr (r, e) ↦
        let color : Color = record { token = token; hex = hex } in
        let u = with_member peer (λ m. record m { color = color }) r in
        rw (apply_member_color, e, lookup-insert k j u s.rooms_cache, n)
  ]

  cache-remove : (peer : String) → (owner_remove env owned k peer s).1.rooms_cache ≡ s.rooms_cache
  unfolding owner_remove
  cache-remove peer = ground (arith, Option-cases (lookup k s.rooms))

module _ (env : Env) (m : RoomMsg) (verified k : String) (s : Rooms) (r : Room) where
  -- The copy of a room that another host owns, who is not at the end of this connection.
  record IsForeign : Type 0 where
    absent : lookup k s.rooms ≡ none
    held : lookup k s.rooms_cache ≡ some r
    not_ours : r.owner ≢ env.host_id
    not_theirs : r.owner ≢ verified

  abbrev Holds : Rooms → Type 0
  Holds s' = lookup k s'.rooms_cache ≡ some r

  recorded_same :
      IsForeign
      → m.room_id ≡ k
      → (p : Place) (x : Room) → get_room m.room_id s ≡ some (p, x)
      → x ≡ r
  recorded_same f e p x g = elim (get_room_cases m.room_id s p x g) [
    | inl (place, l) ↦ absurd (ground (arith, l, e, f.absent))
    | inr (place, l, c) ↦ ground (arith, c, e, f.held)
  ]

  state-Holds : IsForeign → Holds (handle_state m verified s)
  state-Holds f = handle_state_cases m verified s Holds f.held (λ room t. other room t)
    where
      other :
          (room : Room)
          → IsTaken m verified s room
          → Holds (persist_cache (put_room cached m.room_id room s))
      other room t = elim (Bool-cases (str_eq m.room_id k)) [
        | inl here ↦
            let (p, x, g, own) = t.recorded in
            let same = recorded_same f ((eq_iff m.room_id k).0 here) p x g in
            absurd (f.not_theirs (ap (λ y. y.owner) (sym same) ∙ own))
        | inr there ↦ ground (arith, lookup-insert m.room_id k room s.rooms_cache, there, f.held)
      ]

  invite-Holds : IsForeign → Holds (handle_invite env m s)
  unfolding handle_invite
  invite-Holds f = elim (Bool-cases (has m.room_id s.rooms_cache || has m.room_id s.rooms)) [
    | inl known ↦ rw (handle_invite, known) f.held
    | inr new ↦
        rw (handle_invite, new)
          (ground (
            arith,
            lookup-insert m.room_id k (stub env m) s.rooms_cache,
            f.held,
            new,
            eq_iff m.room_id k,
            has-lookup k r s.rooms_cache f.held,
          ))
  ]

  remove-Holds : IsForeign → Holds (handle_remove m verified s)
  unfolding handle_remove
  remove-Holds f = elim (Option-cases (get_room m.room_id s)) [
    | inl e ↦ rw (handle_remove, e) f.held
    | inr ((p, x), e) ↦ elim (Bool-cases (str_eq x.owner verified)) [
      | inr other ↦ rw (handle_remove, e, other) f.held
      | inl own ↦
          rw (handle_remove, e, own)
            (elim (Bool-cases (str_eq m.room_id k)) [
              | inl here ↦
                  let same = recorded_same f ((eq_iff m.room_id k).0 here) p x e in
                  absurd
                    (f.not_theirs (ap (λ y. y.owner) (sym same) ∙ (eq_iff x.owner verified).0 own))
              | inr there ↦ ground (arith, lookup-erase m.room_id k s.rooms_cache, there, f.held)
            ])
    ]
  ]

  color-Holds : IsForeign → Holds (handle_color_set env m s).0
  unfolding handle_color_set
  color-Holds f = elim (Option-cases (get_room m.room_id s)) [
    | inl e ↦ rw (handle_color_set, e) f.held
    | inr ((p, x), e) ↦
        let token = clipped 32 m.token in
        elim (Bool-cases (
          not (str_eq x.owner env.host_id)
          || not (has m.from x.members)
          || not (is_color token m.hex))) [
            | inl refused ↦ rw (handle_color_set, e, refused) f.held
            | inr allows ↦
                rw (handle_color_set, e, allows)
                  (elim (get_room_cases m.room_id s p x e) [
                    | inl (place, l) ↦
                        rw place
                          (ap (lookup k) (cache-color env m.room_id s m.from token m.hex) ∙ f.held)
                    | inr (place, l, c) ↦ rw place (elim (Bool-cases (str_eq m.room_id k)) [
                      | inl here ↦
                          let same = recorded_same f ((eq_iff m.room_id k).0 here) p x e in
                          absurd (
                            f.not_ours (
                              ap (λ y. y.owner) (sym same)
                              ∙ ground (arith, allows, eq_iff x.owner env.host_id)))
                      | inr there ↦
                          cache-color_other env m.room_id s k m.from token m.hex there ∙ f.held
                    ])
                  ])
          ]
  ]

  join-Holds : IsForeign → Holds (handle_join env m s).0
  unfolding handle_join
  join-Holds f = elim (Option-cases (own_room env m.room_id s)) [
    | inl e ↦ rw (handle_join, e) f.held
    | inr (x, e) ↦
        let spent : Room = record x { invited = erase m.from x.invited } in
        let s2 =
          if has m.from x.invited then persist_owner (put_room owned m.room_id spent s) else s in
        let cache : s2.rooms_cache ≡ s.rooms_cache = ground arith in
        elim (Bool-cases (
          not (env.is_trusted m.from)
          || (not (has m.from x.members) && not (has m.from x.invited)))) [
            | inl refused ↦ rw (handle_join, e, refused) f.held
            | inr allows ↦
                rw (handle_join, e, allows)
                  (ap (lookup k) (cache-admit env m.room_id s2 m.from m.from_name ∙ cache) ∙ f.held)
          ]
  ]

  add-Holds : IsForeign → Holds (handle_add env m s).0
  unfolding handle_add
  add-Holds f = elim (Option-cases (own_room env m.room_id s)) [
    | inl e ↦ rw (handle_add, e) f.held
    | inr (x, e) ↦
        ground (arith, e, ap (lookup k) (cache-invite env m.room_id s m.peer) ∙ f.held, f.held)
  ]

  leave-Holds : IsForeign → Holds (handle_leave env m s).0
  unfolding handle_leave
  leave-Holds f = elim (Option-cases (own_room env m.room_id s)) [
    | inl e ↦ rw (handle_leave, e) f.held
    | inr (x, e) ↦
        rw (handle_leave, e) (ap (lookup k) (cache-remove env m.room_id s m.from) ∙ f.held)
  ]

  kind-Holds : (kind : Kind) → IsForeign → Holds (handle_kind env kind m verified s).0
  unfolding handle_kind
  kind-Holds room_state f = state-Holds f
  kind-Holds room_invite f = invite-Holds f
  kind-Holds room_state_req f = f.held
  kind-Holds room_file f = f.held
  kind-Holds room_leave f = leave-Holds f
  kind-Holds room_join f = join-Holds f
  kind-Holds room_add f = add-Holds f
  kind-Holds room_color_set f = color-Holds f
  kind-Holds room_remove f = remove-Holds f
  kind-Holds room_file_status f = f.held
  kind-Holds other_kind f = f.held

-- A daemon's copy of a room that another host owns is changed by no message that comes over any other
-- connection than the owner's.
pub handle_room_msg-foreign :
    (env : Env) (m : RoomMsg) (verified k : String) (s : Rooms) (r : Room)
    → lookup k s.rooms ≡ none
    → lookup k s.rooms_cache ≡ some r
    → r.owner ≢ env.host_id
    → r.owner ≢ verified
    → lookup k (handle_room_msg env m verified s).0.rooms_cache ≡ some r
unfolding handle_room_msg
handle_room_msg-foreign env m verified k s r absent held ours theirs =
    let f : IsForeign env m verified k s r = record {
      absent = absent;
      held = held;
      not_ours = ours;
      not_theirs = theirs;
    } in
    elim (Bool-cases (str_eq m.room_id "" || is_mismatch m verified s)) [
      | inl drops ↦ rw (handle_room_msg, drops) held
      | inr passes ↦ rw (handle_room_msg, passes) (kind-Holds env m verified k s r m.kind f)
    ]
