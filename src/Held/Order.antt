-- ===== src/Held/Order.antt =====
-- Which requests are held, and that a release gives back exactly these, in order.
use lan_chat.Base.{
  ℕ, ◌+◌, ◌≤◌, ◌<◌, String, ◌≡◌, ◌≢◌, refl, ap, ◌∙◌, sym, inl, inr, Bool, true, false, Option, none,
  some, List, [], ◌∷◌, ◌++◌, arith, length, ltb, ◌||◌, Bool-cases, if◌then◌else◌,
}
use lan_chat.Dict.{lookup, lookup-insert_self, lookup-insert_ne, lookup-erase_self, lookup-erase_ne}
use lan_chat.Dict.Sums.{total}
use lan_chat.History.Types.{Attachment, Message}
use lan_chat.Held.Queue.{
  Pending, or_else, held_msg_bytes, hold_friend_request, release_pending_first,
  pending_first_global_max_msgs, pending_first_global_max_bytes,
}
use lan_chat.Held.Bounds.{hold_cases}

append_assoc : {A : Type 0} (xs ys zs : List A) → (xs ++ ys) ++ zs ≡ xs ++ (ys ++ zs)
append_assoc [] ys zs = refl
append_assoc (x ∷ xs) ys zs = ap (◌∷◌ x) (append_assoc xs ys zs)

append_nil : {A : Type 0} (xs : List A) → xs ++ [] ≡ xs
append_nil [] = refl
append_nil (x ∷ xs) = ap (◌∷◌ x) (append_nil xs)

module _ (json_bytes : Attachment → Option ℕ) where
  abbrev After : String → Message → Pending → Bool × Pending → Type 0
  After pid m s (held, s') =
      (held ≡ true
        → lookup pid s'.pending_first ≡ some (or_else [] (lookup pid s.pending_first) ++ m ∷ []))
      × (held ≡ false → s' ≡ s)
      × ((j : String)
          → pid ≢ j
          → (lookup j s'.pending_first ≡ lookup j s.pending_first)
            × (lookup j s'.pending_first_bytes ≡ lookup j s.pending_first_bytes))

  -- The first message of a peer is held as long as the daemon has room for it. A message that is
  -- held comes behind those of its peer, and one that is not changes nothing; either way the other
  -- peers keep their messages and their bytes.
  pub hold_friend_request-IsHeld :
      (pid : String) (m : Message) (s : Pending)
      → (lookup pid s.pending_first ≡ none
          → total length s.pending_first < pending_first_global_max_msgs
          → total (λ n. n) s.pending_first_bytes + held_msg_bytes json_bytes m
            ≤ pending_first_global_max_bytes
          → (hold_friend_request json_bytes pid m s).0 ≡ true)
        × ((hold_friend_request json_bytes pid m s).0 ≡ true
            → lookup pid (hold_friend_request json_bytes pid m s).1.pending_first
              ≡ some (or_else [] (lookup pid s.pending_first) ++ m ∷ []))
        × ((hold_friend_request json_bytes pid m s).0 ≡ false
            → (hold_friend_request json_bytes pid m s).1 ≡ s)
        × ((j : String)
            → pid ≢ j
            → (lookup j (hold_friend_request json_bytes pid m s).1.pending_first
                ≡ lookup j s.pending_first)
              × (lookup j (hold_friend_request json_bytes pid m s).1.pending_first_bytes
                  ≡ lookup j s.pending_first_bytes))
  unfolding hold_friend_request
  hold_friend_request-IsHeld pid m s =
      let after : After pid m s (hold_friend_request json_bytes pid m s) =
        hold_cases json_bytes pid m s (After pid m s)
          (λ e. absurd (cc), λ e. refl, λ j n. (refl, refl))
          λ a. (
            λ e. lookup-insert_self pid _ s.pending_first,
            λ e. absurd (cc),
            λ j n. (
              lookup-insert_ne pid j _ s.pending_first n,
              lookup-insert_ne pid j _ s.pending_first_bytes n,
            ),
          ) in
      (
        λ e c b.
            let room =
              has_room (total length s.pending_first)
                (total (λ n. n) s.pending_first_bytes + held_msg_bytes json_bytes m) c b in
            rw (hold_friend_request, e, room),
        after.0,
        after.1,
        after.2,
      )
    where
      has_room :
          (count bytes : ℕ)
          → count < pending_first_global_max_msgs
          → bytes ≤ pending_first_global_max_bytes
          → (ltb pending_first_global_max_msgs (count + 1)
              || ltb pending_first_global_max_bytes bytes)
            ≡ false
      has_room count bytes c b = ground arith

  -- The messages of a peer that are held, and the state behind them.
  unfoldable pub hold_all : String → List Message → Pending → List Message × Pending
  hold_all pid [] s = ([], s)
  hold_all pid (m ∷ ms) s =
      let (held, s1) = hold_friend_request json_bytes pid m s in
      let (more, s2) = hold_all pid ms s1 in (if held then m ∷ more else more, s2)

  queue-hold_all :
      (pid : String) (ms : List Message) (s : Pending)
      → or_else [] (lookup pid (hold_all pid ms s).1.pending_first)
        ≡ or_else [] (lookup pid s.pending_first) ++ (hold_all pid ms s).0
  unfolding hold_all
  queue-hold_all pid [] s = sym (append_nil (or_else [] (lookup pid s.pending_first)))
  queue-hold_all pid (m ∷ ms) s =
      let now = hold_friend_request-IsHeld pid m s in
      let old = or_else [] (lookup pid s.pending_first) in
      let more = (hold_all pid ms (hold_friend_request json_bytes pid m s).1).0 in
      let rest = queue-hold_all pid ms (hold_friend_request json_bytes pid m s).1 in
      elim (Bool-cases (hold_friend_request json_bytes pid m s).0) [
        | inl e ↦ rw e (rest ∙ (rw (now.1 e) (append_assoc old (m ∷ []) _)))
        | inr e ↦ rw e (rest ∙ ap (λ x. or_else [] (lookup pid x.pending_first) ++ more) (now.2 e))
      ]

  others-hold_all :
      (pid j : String) (ms : List Message) (s : Pending)
      → pid ≢ j
      → (lookup j (hold_all pid ms s).1.pending_first ≡ lookup j s.pending_first)
        × (lookup j (hold_all pid ms s).1.pending_first_bytes ≡ lookup j s.pending_first_bytes)
  unfolding hold_all
  others-hold_all pid j [] s n = (refl, refl)
  others-hold_all pid j (m ∷ ms) s n =
      let now = (hold_friend_request-IsHeld pid m s).3 j n in
      let rest = others-hold_all pid j ms (hold_friend_request json_bytes pid m s).1 n in
      (rest.0 ∙ now.0, rest.1 ∙ now.1)

  -- The release of a peer gives back its messages that were held before and those held since, in the
  -- order in which they came; then nothing of the peer is left, and the other peers have what they had.
  pub release_pending_first-hold_all :
      (pid : String) (ms : List Message) (s : Pending)
      → ((release_pending_first pid (hold_all pid ms s).1).0
          ≡ or_else [] (lookup pid s.pending_first) ++ (hold_all pid ms s).0)
        × (lookup pid (release_pending_first pid (hold_all pid ms s).1).1.pending_first ≡ none)
        × (lookup pid (release_pending_first pid (hold_all pid ms s).1).1.pending_first_bytes
            ≡ none)
        × ((j : String)
            → pid ≢ j
            → lookup j (release_pending_first pid (hold_all pid ms s).1).1.pending_first
              ≡ lookup j s.pending_first)
  unfolding release_pending_first
  release_pending_first-hold_all pid ms s =
      let s1 = (hold_all pid ms s).1 in
      (
        queue-hold_all pid ms s,
        lookup-erase_self pid s1.pending_first,
        lookup-erase_self pid s1.pending_first_bytes,
        λ j n. lookup-erase_ne pid j s1.pending_first n ∙ (others-hold_all pid j ms s n).0,
      )
