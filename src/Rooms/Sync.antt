-- ===== src/Rooms/Sync.antt =====
-- How a member's copy follows the owner's room.
use native.Mathlib.Nat.{le_trans}
use lan_chat.Base.{
  ◌≤◌, ltb, String, ◌≡◌, ◌≢◌, ◌⊎◌, refl, sym, ap, ◌∙◌, inl, inr, true, false, not, none, some, List,
  [], ◌∷◌, arith, str_eq, eq_iff, eq_refl, if◌then◌else◌, Bool-cases, All, keep, map,
}
use lan_chat.Dict.{Dict, lookup, insert, has, lookup-insert_self, has-lookup-none}
use lan_chat.Rooms.Types.{
  Room, Rooms, RoomMsg, send, Env, cached, put_room, persist_cache, get_room, keys,
}
use lan_chat.Rooms.Owner.{send_room_state, send_all, state_msg, wire_room}
use lan_chat.Rooms.Handle.{handle_state, handle_kind, handle_room_msg, is_mismatch}

abbrev pub Among : {A : Type 0} → A → List A → Type 0
Among x [] = ⊥
Among x (y ∷ ys) = (x ≡ y) ⊎ Among x ys

-- Every member but the owner is sent the snapshot.
send_all-Among :
    (m : RoomMsg) (pid : String) (pids : List String)
    → str_eq pid "" ≡ false
    → Among pid pids
    → Among (send pid m) (send_all m pids)
send_all-Among m pid [] n h = absurd h
send_all-Among m pid (p ∷ ps) n h = elim (Bool-cases (str_eq p "")) [
  | inl blank ↦ rw blank (elim h [
    | inl e ↦ absurd (ground (arith, n, blank, e))
    | inr rest ↦ send_all-Among m pid ps n rest
  ])
  | inr named ↦ rw named (elim h [
    | inl e ↦ inl (ap (λ x. send x m) e)
    | inr rest ↦ inr (send_all-Among m pid ps n rest)
  ])
]

members-Among :
    {V : Type 0} (owner pid : String) (d : Dict V)
    → has pid d ≡ true
    → pid ≢ owner
    → Among pid (keep (λ m. not (str_eq m owner)) (keys d))
unfolding has
members-Among owner pid [] h n = absurd (cc)
members-Among owner pid ((k, v) ∷ d) h n = elim (Bool-cases (str_eq k owner)) [
  | inl is_owner ↦
      rw is_owner
        (members-Among owner pid d (ground (arith, h, is_owner, eq_iff k owner, eq_iff k pid, n)) n)
  | inr other ↦ rw other (elim (Bool-cases (str_eq k pid)) [
    | inl here ↦ inl (sym ((eq_iff k pid).0 here))
    | inr there ↦ inr (members-Among owner pid d (ground (arith, h, there)) n)
  ])
]

-- The snapshots of a room that its owner sends, in any order.
unfoldable pub deliver : Env → Env → List Room → Rooms → Rooms
deliver owner env [] s = s
deliver owner env (r ∷ rs) s =
    deliver owner env rs (handle_room_msg env (state_msg owner r) owner.host_id s).0

-- Every member of a room but its owner is sent the snapshot.
pub send_room_state-Among :
    (env : Env) (r : Room) (pid : String)
    → has pid r.members ≡ true
    → pid ≢ r.owner
    → str_eq pid "" ≡ false
    → Among (send pid (state_msg env r)) (send_room_state env r "")
unfolding send_room_state
send_room_state-Among env r pid h n named =
    send_all-Among (state_msg env r) pid _ named (members-Among r.owner pid r.members h n)

-- A snapshot of a room by its owner.
abbrev pub IsSnapshot : Env → String → Room → Type 0
IsSnapshot owner k r = (r.room_id ≡ k) × (r.owner ≡ owner.host_id)

module _ (owner env : Env) (k : String) (named : str_eq k "" ≡ false) where
  -- A member's state with the copy of the owner's room.
  pub record Follows (t : Rooms) (c : Room) : Type 0 where
    pub absent : lookup k t.rooms ≡ none
    pub held : lookup k t.rooms_cache ≡ some c
    pub theirs : c.owner ≡ owner.host_id

  unfoldable received : Room → Rooms → Rooms
  received r t = (handle_room_msg env (state_msg owner r) owner.host_id t).0

  own_frame : (r : Room) (t : Rooms) → is_mismatch (state_msg owner r) owner.host_id t ≡ false
  unfolding is_mismatch
  own_frame r t = ground (arith, eq_refl owner.host_id)

  received-value :
      (r : Room) (t : Rooms) (c : Room)
      → IsSnapshot owner k r
      → Follows t c
      → received r t
        ≡ (if ltb r.seq c.seq then t else persist_cache (put_room cached r.room_id (wire_room r) t))
  unfolding received handle_room_msg handle_kind handle_state get_room
  received-value r t c (id, theirs) f =
      let absent = ap (λ x. lookup x t.rooms) id ∙ f.absent in
      let held = ap (λ x. lookup x t.rooms_cache) id ∙ f.held in
      let filled : str_eq r.room_id "" ≡ false = ap (λ x. str_eq x "") id ∙ named in
      let own : str_eq c.owner owner.host_id ≡ true = (eq_iff c.owner owner.host_id).1 f.theirs in
      let foreign = has-lookup-none r.room_id t.rooms absent in
      rw (
        received,
        handle_room_msg,
        filled,
        own_frame r t,
        handle_kind,
        handle_state,
        eq_refl r.room_id,
        absent,
        held,
        own,
        foreign,
        held,
      )

  received-Follows :
      (r : Room) (t : Rooms) (c : Room)
      → IsSnapshot owner k r
      → Follows t c
      → (c' : Room) × Follows (received r t) c'
        × (c.seq ≤ c'.seq)
        × (r.seq ≤ c'.seq)
        × ((c' ≡ c) ⊎ (c' ≡ wire_room r))
  received-Follows r t c snap f = elim (Bool-cases (ltb r.seq c.seq)) [
    | inl older ↦
        let kept : received r t ≡ t = received-value r t c snap f ∙ rw older refl in
        (c, rw kept f, omega arith, ground (arith, older), inl refl)
    | inr newer ↦
        let value = received-value r t c snap f in
        let taken : received r t ≡ persist_cache (put_room cached r.room_id (wire_room r) t) =
          value ∙ rw newer refl in
        (
          wire_room r,
          rw taken (record {
            absent = f.absent;
            held =
                ap (λ x. lookup k (insert x (wire_room r) t.rooms_cache)) snap.0
                ∙ lookup-insert_self k (wire_room r) t.rooms_cache;
            theirs = snap.1;
          }),
          ground (arith, newer),
          omega arith,
          inr refl,
        )
  ]

  -- A member follows the owner: after any snapshots of the room, in any order and any number of times, its
  -- copy is the one that it had or one of the snapshots, and none of these is newer.
  pub deliver-Follows :
      (rs : List Room) (t : Rooms) (c : Room)
      → All (IsSnapshot owner k) rs
      → Follows t c
      → (c' : Room) × Follows (deliver owner env rs t) c'
        × (c.seq ≤ c'.seq)
        × All (λ r. r.seq ≤ c'.seq) rs
        × ((c' ≡ c) ⊎ Among c' (map wire_room rs))
  unfolding deliver received
  deliver-Follows [] t c all f = (c, f, omega arith, tt, inl refl)
  deliver-Follows (r ∷ rs) t c all f =
      let (c1, f1, up, over, from1) = received-Follows r t c all.0 f in
      let (c2, f2, up2, over2, from2) = deliver-Follows rs (received r t) c1 all.1 f1 in
      (
        c2,
        f2,
        le_trans up up2,
        (le_trans over up2, over2),
        elim from2 [
          | inr later ↦ inr (inr later)
          | inl same ↦ elim from1 [ inl old ↦ inl (same ∙ old) | inr now ↦ inr (inl (same ∙ now)) ]
        ],
      )
