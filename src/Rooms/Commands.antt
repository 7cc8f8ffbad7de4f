-- ===== src/Rooms/Commands.antt =====
-- Each event makes one of the changes, founds a room, gives one up or reads the files again.
use lan_chat.Base.{
  String, ◌≡◌, ◌⊎◌, refl, sym, ap, ◌∙◌, inl, inr, Bool, true, false, ◌||◌, none, some, List, ◌==◌,
  arith, length, str_eq, eq_iff, Bool-cases, Option-cases,
}
use lan_chat.Dict.{lookup, erase, has}
use lan_chat.Rooms.Types.{
  Room, Rooms, RoomMsg, Kind, room_state, room_invite, room_state_req, room_file, room_leave,
  room_join, room_add, room_color_set, room_remove, room_file_status, other_kind, Effect, Env,
  Place, owned, cached, bump, get_room, load_rooms,
}
use lan_chat.Rooms.Owner.{create_room, owner_remove, owner_set_can_invite, owner_toggle_colors}
use lan_chat.Rooms.Member.{member_leave, left, forget_room}
use lan_chat.Rooms.Handle.{handle_kind, handle_room_msg, own_room, is_mismatch, is_file}
use lan_chat.Rooms.Command.{
  Command, create, post_text, post_file, invite, add, join, leave, kick, forget, permit, paint,
  colors, sync, Event, command, message, restart, outcome, room_command, command_invite,
  command_add, command_leave, command_paint, command_owner, step,
}
use lan_chat.Rooms.Machine.{Change, same, cache_out, leave_cached, disband_cached, disbanded}
use lan_chat.Rooms.Rights.{IsAuthored}
use lan_chat.Rooms.Changes.{
  invite-Change, remove-Change, permit-Change, colors-Change, set_color-Change,
}
use lan_chat.Rooms.Messages.{
  state-Change, invite_msg-Change, leave_msg-Change, add_msg-Change, color_msg-Change,
  remove_msg-Change, join_msg-Change,
}

-- A room of the authoritative table: under its id, of this host, who is on its roster.
pub record IsOwn (host k : String) (r : Room) : Type 0 where
  pub id : r.room_id ≡ k
  pub owned_here : r.owner ≡ host
  pub inside : has host r.members ≡ true

-- The rooms of a host: its own are its own and saved, the copies stand under their ids.
pub record IsSound (host : String) (s : Rooms) : Type 0 where
  pub own : (k : String) (r : Room) → lookup k s.rooms ≡ some r → IsOwn host k r
  pub copies : (k : String) (r : Room) → lookup k s.rooms_cache ≡ some r → r.room_id ≡ k
  pub saved : s.rooms_file ≡ s.rooms
  pub saved_copies : (k : String) (r : Room) → lookup k s.cache_file ≡ some r → r.room_id ≡ k

abbrev pub IsOf : String → Event → Type 0
IsOf host (command env c) = env.host_id ≡ host
IsOf host (message env m verified) = env.host_id ≡ host
IsOf host restart = Unit

pub data Outcome (e : Event) (s s' : Rooms) : Type 0 where
  changed : Change e s s' → Outcome e s s'
  made :
      (env : Env) (name : String)
      → e ≡ command env (create name)
      → s' ≡ create_room env name s
      → Outcome e s s'
  gave_up :
      (env : Env) (k id : String) (u : Room)
      → e ≡ command env (leave k)
      → id ≡ k
      → s' ≡ disbanded k id u s
      → Outcome e s s'
  reloaded : s' ≡ load_rooms s → Outcome e s s'

module _ (env : Env) (m : RoomMsg) (verified : String) (s : Rooms) where
  own_author : is_mismatch m verified s ≡ false → is_file m.kind ≡ false → IsAuthored m verified
  unfolding is_mismatch
  own_author h f v n = (eq_iff m.from verified).0 (ground (arith, h, f, v, n))

  by :
      {k : Kind}
      → k ≡ m.kind
      → is_file k ≡ false
      → is_mismatch m verified s ≡ false
      → IsAuthored m verified
  by e f h = own_author h (ap is_file (sym e) ∙ f)

  kind-Change :
      (k : Kind)
      → k ≡ m.kind
      → is_mismatch m verified s ≡ false
      → Change (message env m verified) s (handle_kind env k m verified s).0
  unfolding handle_kind
  kind-Change room_state e h = state-Change (message env m verified) env m s verified
  kind-Change room_invite e h = invite_msg-Change (message env m verified) env m s
  kind-Change room_state_req e h = same refl
  kind-Change room_file e h = same refl
  kind-Change room_leave e h =
      leave_msg-Change (message env m verified) env m s (sym e, refl, refl, by e refl h)
  kind-Change room_join e h =
      join_msg-Change (message env m verified) env m s (λ t. (sym e, refl, refl, t, by e refl h))
  kind-Change room_add e h =
      add_msg-Change (message env m verified) env m s (λ t. (sym e, refl, t))
        (λ r right. (refl, right, by e refl h))
  kind-Change room_color_set e h =
      color_msg-Change (message env m verified) env m s
        (λ mb. (sym e, refl, refl, by e refl h, refl))
  kind-Change room_remove e h = remove_msg-Change (message env m verified) env m s verified
  kind-Change room_file_status e h = same refl
  kind-Change other_kind e h = same refl

  pub message-Change : Change (message env m verified) s (handle_room_msg env m verified s).0
  unfolding handle_room_msg
  message-Change = elim (Bool-cases (str_eq m.room_id "" || is_mismatch m verified s)) [
    | inl drops ↦ rw (handle_room_msg, drops) (same refl)
    | inr passes ↦ rw (handle_room_msg, passes) (kind-Change m.kind refl (ground (arith, passes)))
  ]

pub get_room_cases :
    (k : String) (s : Rooms) (p : Place) (r : Room)
    → get_room k s ≡ some (p, r)
    → ((p ≡ owned) × (lookup k s.rooms ≡ some r))
      ⊎ ((p ≡ cached) × (lookup k s.rooms ≡ none) × (lookup k s.rooms_cache ≡ some r))
unfolding get_room
get_room_cases k s p r h = elim (Option-cases (lookup k s.rooms)) [
  | inr (x, e) ↦ inl (ground (arith, e, h), ground (arith, e, h))
  | inl e ↦ elim (Option-cases (lookup k s.rooms_cache)) [
    | inl f ↦ absurd (ground (arith, e, f, h))
    | inr (x, f) ↦ inr (ground (arith, e, f, h), e, ground (arith, e, f, h))
  ]
]

module _ (host : String) (env : Env) (s : Rooms) (sound : IsSound host s)
    (of : env.host_id ≡ host) where
  -- What a leave does: the owner gives the room up, a member drops its copy.
  own_leave-Outcome :
      (k : String) (r : Room)
      → lookup k s.rooms ≡ some r
      → Outcome (command env (leave k)) s (member_leave env owned k env.host_id s).1
  unfolding member_leave left
  own_leave-Outcome k r found =
      let own = sound.own k r found in
      let inside : has env.host_id r.members ≡ true = rw of own.inside in
      let here : str_eq r.owner env.host_id ≡ true =
        (eq_iff r.owner env.host_id).1 (own.owned_here ∙ sym of) in
      rw (member_leave, found, inside, here)
        (gave_up env k r.room_id (bump (record r { members = erase env.host_id r.members })) refl
          own.id refl)

  copy_leave-Outcome :
      (k : String) (r : Room)
      → lookup k s.rooms ≡ none
      → lookup k s.rooms_cache ≡ some r
      → Outcome (command env (leave k)) s (member_leave env cached k env.host_id s).1
  unfolding member_leave left
  copy_leave-Outcome k r foreign found =
      let id = sound.copies k r found in
      let u = bump (record r { members = erase env.host_id r.members }) in
      elim (Bool-cases (has env.host_id r.members)) [
        | inr outside ↦ rw (member_leave, found, outside) (changed (same refl))
        | inl inside ↦ elim (Bool-cases (str_eq r.owner env.host_id)) [
          | inl own ↦
              rw (member_leave, found, inside, own)
                (changed (disband_cached k r.room_id u id id foreign refl))
          | inr other ↦ elim (Bool-cases (env.is_trusted r.owner)) [
            | inr stranger ↦
                rw (member_leave, found, inside, other, stranger)
                  (changed (cache_out r.room_id refl))
            | inl friend ↦ elim (Bool-cases (env.sends r.owner)) [
              | inr down ↦
                  rw (member_leave, found, inside, other, friend, down) (changed (same refl))
              | inl up ↦ elim (Bool-cases (length u.members == 0)) [
                | inl alone ↦
                    rw (member_leave, found, inside, other, friend, up, alone)
                      (changed (disband_cached k r.room_id u id id foreign refl))
                | inr others ↦
                    rw (member_leave, found, inside, other, friend, up, others)
                      (changed (leave_cached k r.room_id u id refl))
              ]
            ]
          ]
        ]
      ]

  leave-Outcome : (k : String) → Outcome (command env (leave k)) s (command_leave env k s).0
  unfolding command_leave
  leave-Outcome k = elim (Option-cases (get_room k s)) [
    | inl e ↦ rw (command_leave, e) (changed (same refl))
    | inr ((p, r), e) ↦ elim (get_room_cases k s p r e) [
      | inl (place, found) ↦ rw (command_leave, e, place) (own_leave-Outcome k r found)
      | inr (place, foreign, found) ↦
          rw (command_leave, e, place) (copy_leave-Outcome k r foreign found)
    ]
  ]

  invite-Outcome :
      (k peer : String) → Outcome (command env (invite k peer)) s (command_invite env k peer s).0
  unfolding command_invite
  invite-Outcome k peer = elim (Option-cases (get_room k s)) [
    | inl e ↦ rw (command_invite, e) (changed (same refl))
    | inr ((p, r), e) ↦ elim (Bool-cases (str_eq r.owner env.host_id)) [
      | inl own ↦
          rw (command_invite, e, own)
            (changed
              (invite-Change (command env (invite k peer)) env p k s peer refl (λ _ _. refl)))
      | inr other ↦ rw (command_invite, e, other) (changed (same refl))
    ]
  ]

  add-Outcome :
      (k peer : String) → Outcome (command env (add k peer)) s (command_add env k peer s).0
  unfolding command_add
  add-Outcome k peer = elim (Option-cases (get_room k s)) [
    | inl e ↦ rw (command_add, e) (changed (same refl))
    | inr ((p, r), e) ↦
        let may : Bool = elim (lookup env.host_id r.members) [
          | none ↦ false
          | some m ↦ m.can_invite
        ] in
        elim (Bool-cases (str_eq r.owner env.host_id)) [
          | inl own ↦ elim (Bool-cases (env.is_trusted peer)) [
            | inl friend ↦
                rw (command_add, e, own, friend)
                  (changed (
                    invite-Change (command env (add k peer)) env p k s peer (refl, friend)
                      (λ _ _. refl)))
            | inr stranger ↦ rw (command_add, e, own, stranger) (changed (same refl))
          ]
          | inr other ↦ elim (Bool-cases may) [
            | inl allows ↦ rw (command_add, e, other, allows) (changed (same refl))
            | inr refused ↦ rw (command_add, e, other, refused) (changed (same refl))
          ]
        ]
  ]

  paint-Outcome :
      (k token hex : String)
      → Outcome (command env (paint k token hex)) s (command_paint env k token hex s).0
  unfolding command_paint
  paint-Outcome k token hex = elim (Option-cases (get_room k s)) [
    | inl e ↦ rw (command_paint, e) (changed (same refl))
    | inr ((p, r), e) ↦
        rw (command_paint, e)
          (changed (
            set_color-Change (command env (paint k token hex)) env p k s env.host_id token hex
              (λ m color h. (refl, refl, (color, h, refl)))))
  ]

  owner-Outcome :
      (c : Command) (k : String) (f : Rooms → Rooms × List Effect)
      → Outcome (command env c) s (f s).0
      → Outcome (command env c) s (command_owner env k f s).0
  unfolding command_owner
  owner-Outcome c k f h = elim (Option-cases (own_room env k s)) [
    | inl e ↦ rw (command_owner, e) (changed (same refl))
    | inr (r, e) ↦ rw (command_owner, e) h
  ]

  forget-Outcome : (k : String) → Outcome (command env (forget k)) s (forget_room env k s).1
  unfolding forget_room
  forget-Outcome k = elim (Option-cases (lookup k s.rooms_cache)) [
    | inl e ↦ rw (forget_room, e) (changed (same refl))
    | inr (r, e) ↦
        elim (Bool-cases
          (has k s.rooms || has env.host_id r.members || str_eq r.owner env.host_id)) [
            | inl refused ↦ rw (forget_room, e, refused) (changed (same refl))
            | inr allows ↦ rw (forget_room, e, allows) (changed (cache_out k refl))
          ]
  ]

  command-Outcome : (c : Command) → Outcome (command env c) s (room_command env c s).0
  unfolding room_command
  command-Outcome (create name) = made env name refl refl
  command-Outcome (post_text k text) = changed (same refl)
  command-Outcome (post_file k att text) = changed (same refl)
  command-Outcome (invite k peer) = invite-Outcome k peer
  command-Outcome (add k peer) = add-Outcome k peer
  command-Outcome (join k) = changed (same refl)
  command-Outcome (leave k) = leave-Outcome k
  command-Outcome (kick k peer) =
      owner-Outcome (kick k peer) k (λ x. outcome (owner_remove env owned k peer x))
        (changed (remove-Change (command env (kick k peer)) env owned k s peer (refl, refl)))
  command-Outcome (forget k) = forget-Outcome k
  command-Outcome (permit k peer allowed) =
      owner-Outcome (permit k peer allowed) k
        (λ x. outcome (owner_set_can_invite env owned k peer allowed x))
        (changed (
          permit-Change (command env (permit k peer allowed)) env owned k s peer allowed
            (λ m. (refl, refl, refl))))
  command-Outcome (paint k token hex) = paint-Outcome k token hex
  command-Outcome (colors k enabled) =
      owner-Outcome (colors k enabled) k (λ x. owner_toggle_colors env owned k enabled x)
        (changed
          (colors-Change (command env (colors k enabled)) env owned k s enabled (refl, refl)))
  command-Outcome sync = changed (same refl)

-- Every event of a host on sound rooms has one of the outcomes.
pub step-Outcome :
    (host : String) (e : Event) (s : Rooms) → IsSound host s → IsOf host e → Outcome e s (step e s)
unfolding step
step-Outcome host (command env c) s sound of = command-Outcome host env s sound of c
step-Outcome host (message env m verified) s sound of = changed (message-Change env m verified s)
step-Outcome host restart s sound of = reloaded refl
