-- ===== src/Rooms/Changes.antt =====
-- Each operation on a room is one of the changes.
use lan_chat.Base.{
  String, ◌≡◌, some, refl, inl, inr, Bool, not, ◌||◌, arith, str_eq, eq_iff, if◌then◌else◌,
  Bool-cases, Option-cases,
}
use lan_chat.Dict.{lookup, insert, has}
use lan_chat.Rooms.Types.{Color, Member, Room, Rooms, Env, Place, room_at, bump, clipped, is_color}
use lan_chat.Rooms.Owner.{
  owner_invite, owner_remove, removed, with_member, owner_set_can_invite, apply_member_color,
  owner_toggle_colors,
}
use lan_chat.Rooms.Member.{member_set_color}
use lan_chat.Rooms.Command.{Event}
use lan_chat.Rooms.Rights.{Invites, MayInvite, Expels, Recasts, Switches}
use lan_chat.Rooms.Machine.{Step, stay, ticket, expel, change, switch, Change, same, edit}

module _ (ev : Event) (env : Env) (p : Place) (room_id : String) (s : Rooms) where
  pub invite-Change :
      (peer : String)
      → Invites ev peer
      → ((r : Room) → room_at p room_id s ≡ some r → MayInvite ev room_id r)
      → Change ev s (owner_invite env p room_id peer s).1
  unfolding owner_invite
  invite-Change peer ok may = elim (Option-cases (room_at p room_id s)) [
    | inl e ↦ rw (owner_invite, e) (same refl)
    | inr (r, e) ↦ elim (Bool-cases (env.sends peer)) [
      | inl out ↦
          rw (owner_invite, e, out)
            (edit p room_id r (record r { invited = insert peer env.now r.invited }) e
              (ticket peer env.now ok (may r e) refl) refl)
      | inr down ↦ rw (owner_invite, e, down) (same refl)
    ]
  ]

  pub remove-Change :
      (peer : String) → Expels ev room_id peer → Change ev s (owner_remove env p room_id peer s).1
  unfolding owner_remove
  remove-Change peer ok = elim (Option-cases (room_at p room_id s)) [
    | inl e ↦ rw (owner_remove, e) (same refl)
    | inr (r, e) ↦ elim (Bool-cases (str_eq peer r.owner || not (has peer r.members))) [
      | inl refused ↦ rw (owner_remove, e, refused) (same refl)
      | inr allows ↦
          rw (owner_remove, e, allows)
            (edit p room_id r (removed peer r) e
              (expel peer ok (ground (arith, allows))
                (λ q. absurd (ground (arith, allows, q, eq_iff peer r.owner))) refl)
              refl)
    ]
  ]

  pub with_member-Step :
      (peer : String) (f : Member → Member) (r : Room)
      → ((m : Member) → Recasts ev room_id peer m (f m))
      → Step ev room_id r (with_member peer f r)
  with_member-Step peer f r ok = elim (Option-cases (lookup peer r.members)) [
    | inl e ↦ rw (with_member, e) (stay refl)
    | inr (m, e) ↦ rw (with_member, e) (change peer m (f m) (ok m) e refl)
  ]

  pub permit-Change :
      (peer : String) (allowed : Bool)
      → ((m : Member) → Recasts ev room_id peer m (record m { can_invite = allowed }))
      → Change ev s (owner_set_can_invite env p room_id peer allowed s).1
  unfolding owner_set_can_invite
  permit-Change peer allowed ok = elim (Option-cases (room_at p room_id s)) [
    | inl e ↦ rw (owner_set_can_invite, e) (same refl)
    | inr (r, e) ↦ elim (Bool-cases (str_eq peer r.owner || not (has peer r.members))) [
      | inl refused ↦ rw (owner_set_can_invite, e, refused) (same refl)
      | inr allows ↦
          rw (owner_set_can_invite, e, allows)
            (edit p room_id r (with_member peer (λ m. record m { can_invite = allowed }) r) e
              (with_member-Step peer (λ m. record m { can_invite = allowed }) r ok) refl)
    ]
  ]

  pub color-Change :
      (peer token hex : String)
      → ((m : Member)
          → Recasts ev room_id peer m (record m { color = record { token = token; hex = hex } }))
      → Change ev s (apply_member_color env p room_id peer token hex s).0
  unfolding apply_member_color
  color-Change peer token hex ok = elim (Option-cases (room_at p room_id s)) [
    | inl e ↦ rw (apply_member_color, e) (same refl)
    | inr (r, e) ↦
        let color : Color = record { token = token; hex = hex } in
        rw (apply_member_color, e)
          (edit p room_id r (with_member peer (λ m. record m { color = color }) r) e
            (with_member-Step peer (λ m. record m { color = color }) r ok) refl)
  ]

  pub colors-Change :
      (enabled : Bool)
      → Switches ev room_id enabled
      → Change ev s (owner_toggle_colors env p room_id enabled s).0
  unfolding owner_toggle_colors
  colors-Change enabled ok = elim (Option-cases (room_at p room_id s)) [
    | inl e ↦ rw (owner_toggle_colors, e) (same refl)
    | inr (r, e) ↦
        rw (owner_toggle_colors, e)
          (edit p room_id r (bump (record r { colors_enabled = enabled })) e
            (switch enabled ok refl) refl)
  ]

  pub set_color-Change :
      (peer token hex : String)
      → ((m : Member) (color : Color)
          → color.hex ≡ hex
          → Recasts ev room_id peer m (record m { color = color }))
      → Change ev s (member_set_color env p room_id peer token hex s).1
  unfolding member_set_color
  set_color-Change peer token hex ok = elim (Option-cases (room_at p room_id s)) [
    | inl e ↦ rw (member_set_color, e) (same refl)
    | inr (r, e) ↦
        let token' = clipped 32 (if str_eq token "" then "theme" else token) in
        elim (Bool-cases (not (has peer r.members) || not (is_color token' hex))) [
          | inl refused ↦ rw (member_set_color, e, refused) (same refl)
          | inr allows ↦ elim (Bool-cases (str_eq r.owner peer)) [
            | inl own ↦
                rw (member_set_color, e, allows, own)
                  (color-Change peer token' hex
                    (λ m. ok m (record { token = token'; hex = hex }) refl))
            | inr other ↦ rw (member_set_color, e, allows, other) (same refl)
          ]
        ]
  ]
