-- ===== src/Held/Bounds.antt =====
-- What bounds the held requests, and that their bytes are counted exactly.
use lan_chat.Base.{
  ℕ, suc, ◌+◌, ◌≤◌, String, ◌≡◌, refl, ap, ◌∙◌, sym, inl, inr, ◌⊎◌, Bool, true, false, not, ◌&&◌,
  ◌||◌, Option, none, some, List, [], ◌∷◌, ◌++◌, arith, length, length-append, leb, ltb, ◌==◌,
  str_eq, Bool-cases, Option-cases,
}
use mathlib.Core.Path.{subst}
use lan_chat.Dict.{Dict, lookup, insert, lookup-insert, lookup-erase}
use lan_chat.Dict.Sums.{total, total-insert, total-insert-le, total-erase-le}
use lan_chat.History.Types.{Attachment, Message}
use lan_chat.Held.Queue.{
  Pending, or_else, held_msg_bytes, hold_friend_request, release_pending_first,
  pending_first_max_msgs, pending_first_max_bytes, pending_first_global_max_msgs,
  pending_first_global_max_bytes,
}

-- A request that arrives, and an answer of the user or a cancellation.
pub data Call : Type 0 where
  hold : String → Message → Call
  release : String → Call

abbrev pub no_requests : Pending
no_requests = record { pending_first = []; pending_first_bytes = [] }

total-replace :
    {V : Type 0} (f : V → ℕ) (k : String) (v z : V) (d : Dict V)
    → f z ≡ 0
    → total f (insert k v d) + f (or_else z (lookup k d)) ≤ total f d + f v
total-replace f k v z d h = elim (Option-cases (lookup k d)) [
  | inl e ↦ rw e (omega (arith, total-insert-le f k v d, h))
  | inr (w, e) ↦ rw e (omega (arith, total-insert f k v w d e))
]

module _ (json_bytes : Attachment → Option ℕ) where
  unfoldable pub step : Call → Pending → Pending
  step (hold pid m) s = (hold_friend_request json_bytes pid m s).1
  step (release pid) s = (release_pending_first pid s).1

  unfoldable pub run : List Call → Pending → Pending
  run [] s = s
  run (c ∷ cs) s = run cs (step c s)

  abbrev pub queue_bytes : List Message → ℕ
  queue_bytes [] = 0
  queue_bytes (m ∷ ms) = held_msg_bytes json_bytes m + queue_bytes ms

  queue_bytes-append :
      (xs ys : List Message) → queue_bytes (xs ++ ys) ≡ queue_bytes xs + queue_bytes ys
  queue_bytes-append [] ys = omega arith
  queue_bytes-append (m ∷ xs) ys = omega (arith, queue_bytes-append xs ys)

  abbrev pub option_bytes : Option (List Message) → Option ℕ
  option_bytes none = none
  option_bytes (some q) = some (queue_bytes q)

  -- A queue that is kept for a peer: one message, or more within the caps of a peer.
  pub record IsWithin (q : List Message) : Type 0 where
    pub filled : 1 ≤ length q
    pub few : length q ≤ pending_first_max_msgs
    pub small : (length q ≡ 1) ⊎ (queue_bytes q ≤ pending_first_max_bytes)

  -- The bytes of each peer are those of its messages, each queue is within its caps, and all
  -- together are within the caps of the daemon.
  pub record IsBounded (s : Pending) : Type 0 where
    pub accounts :
        (pid : String)
        → lookup pid s.pending_first_bytes ≡ option_bytes (lookup pid s.pending_first)
    pub queues :
        (pid : String) (q : List Message) → lookup pid s.pending_first ≡ some q → IsWithin q
    pub count : total length s.pending_first ≤ pending_first_global_max_msgs
    pub bytes : total (λ n. n) s.pending_first_bytes ≤ pending_first_global_max_bytes

  or_else-option_bytes :
      (o : Option (List Message)) → or_else 0 (option_bytes o) ≡ queue_bytes (or_else [] o)
  or_else-option_bytes none = refl
  or_else-option_bytes (some q) = refl

  -- What the tests of an admitted message say.
  pub record Admits (pid : String) (m : Message) (s : Pending) : Type 0 where
    pub peer_room :
        (length (or_else [] (lookup pid s.pending_first)) ≡ 0)
        ⊎ ((suc (length (or_else [] (lookup pid s.pending_first))) ≤ pending_first_max_msgs)
            × (or_else 0 (lookup pid s.pending_first_bytes) + held_msg_bytes json_bytes m
                ≤ pending_first_max_bytes))
    pub count_room : total length s.pending_first + 1 ≤ pending_first_global_max_msgs
    pub bytes_room :
        total (λ n. n) s.pending_first_bytes + held_msg_bytes json_bytes m
        ≤ pending_first_global_max_bytes

  abbrev pub admitted : String → Message → Pending → Pending
  admitted pid m s = record {
    pending_first = insert pid (or_else [] (lookup pid s.pending_first) ++ m ∷ []) s.pending_first;
    pending_first_bytes =
        insert pid (or_else 0 (lookup pid s.pending_first_bytes) + held_msg_bytes json_bytes m)
          s.pending_first_bytes;
  }

  pub hold_cases :
      (pid : String) (m : Message) (s : Pending) (P : Bool × Pending → Type 0)
      → P (false, s)
      → (Admits pid m s → P (true, admitted pid m s))
      → P (hold_friend_request json_bytes pid m s)
  unfolding hold_friend_request
  hold_cases pid m s P kept taken =
      let n = length (or_else [] (lookup pid s.pending_first)) in
      let b = or_else 0 (lookup pid s.pending_first_bytes) + held_msg_bytes json_bytes m in
      let over_peer =
        not (n == 0) && (leb pending_first_max_msgs n || ltb pending_first_max_bytes b) in
      let over_all =
        ltb pending_first_global_max_msgs (total length s.pending_first + 1)
        || ltb pending_first_global_max_bytes
            (total (λ n. n) s.pending_first_bytes + held_msg_bytes json_bytes m) in
      elim (Bool-cases over_peer) [
        | inl e ↦ rw (hold_friend_request, e) kept
        | inr e ↦ elim (Bool-cases over_all) [
          | inl f ↦ rw (hold_friend_request, e, f) kept
          | inr f ↦
              rw (hold_friend_request, e, f)
                (taken (record {
                  peer_room = ground (arith, e);
                  count_room = ground (arith, f);
                  bytes_room = ground (arith, f);
                }))
        ]
      ]

  admitted-IsBounded :
      (pid : String) (m : Message) (s : Pending)
      → Admits pid m s
      → IsBounded s
      → IsBounded (admitted pid m s)
  admitted-IsBounded pid m s a h =
      let old = or_else [] (lookup pid s.pending_first) in
      let old_bytes : or_else 0 (lookup pid s.pending_first_bytes) ≡ queue_bytes old =
        ap (or_else 0) (h.accounts pid) ∙ or_else-option_bytes (lookup pid s.pending_first) in
      let grown : queue_bytes (old ++ m ∷ []) ≡ queue_bytes old + held_msg_bytes json_bytes m =
        omega (arith, queue_bytes-append old (m ∷ [])) in
      let longer : length (old ++ m ∷ []) ≡ suc (length old) =
        omega (arith, length-append old (m ∷ [])) in
      let within : IsWithin (old ++ m ∷ []) = record {
        filled = omega (arith, longer);
        few = elim a.peer_room [ inl e ↦ omega (arith, longer) | inr e ↦ omega (arith, longer) ];
        small = elim a.peer_room [
          | inl e ↦ inl (omega (arith, longer))
          | inr e ↦ inr (omega (arith, grown, old_bytes, e.1))
        ];
      } in
      record {
        accounts = λ j.
            rw
              (
                lookup-insert pid j (old ++ m ∷ []) s.pending_first,
                lookup-insert pid j
                    (or_else 0 (lookup pid s.pending_first_bytes) + held_msg_bytes json_bytes m)
                    s.pending_first_bytes,
              )
              (elim (Bool-cases (str_eq pid j)) [
                | inl e ↦ rw (e, old_bytes, grown)
                | inr e ↦ rw e (h.accounts j)
              ]);
        queues = λ j q e.
            let found = sym (lookup-insert pid j (old ++ m ∷ []) s.pending_first) ∙ e in
            elim (Bool-cases (str_eq pid j)) [
              | inl same ↦
                  let new : old ++ m ∷ [] ≡ q = ground (arith, found, same) in
                  subst IsWithin new within
              | inr other ↦ h.queues j q (ground (arith, found, other))
            ];
        count = omega (
          arith,
          a.count_room,
          longer,
          total-replace length pid (old ++ m ∷ []) [] s.pending_first refl,
        );
        bytes = omega (
          arith,
          a.bytes_room,
          total-replace (λ n. n) pid
              (or_else 0 (lookup pid s.pending_first_bytes) + held_msg_bytes json_bytes m) 0
              s.pending_first_bytes refl,
        );
      }

  release-IsBounded :
      (pid : String) (s : Pending) → IsBounded s → IsBounded (release_pending_first pid s).1
  unfolding release_pending_first
  release-IsBounded pid s h = record {
    accounts = λ j.
        rw (lookup-erase pid j s.pending_first, lookup-erase pid j s.pending_first_bytes)
          (elim (Bool-cases (str_eq pid j)) [ inl e ↦ rw e | inr e ↦ rw e (h.accounts j) ]);
    queues = λ j q e. h.queues j q (ground (arith, sym (lookup-erase pid j s.pending_first) ∙ e));
    count = omega (arith, h.count, total-erase-le length pid s.pending_first);
    bytes = omega (arith, h.bytes, total-erase-le (λ n. n) pid s.pending_first_bytes);
  }

  step-IsBounded : (c : Call) (s : Pending) → IsBounded s → IsBounded (step c s)
  unfolding step
  step-IsBounded (hold pid m) s h =
      hold_cases pid m s (λ o. IsBounded o.1) h (λ a. admitted-IsBounded pid m s a h)
  step-IsBounded (release pid) s h = release-IsBounded pid s h

  keeps-IsBounded : (cs : List Call) (s : Pending) → IsBounded s → IsBounded (run cs s)
  unfolding run
  keeps-IsBounded [] s h = h
  keeps-IsBounded (c ∷ cs) s h = keeps-IsBounded cs (step c s) (step-IsBounded c s h)

  -- After any calls from a start with no requests, the bytes recorded for each peer are those of its
  -- held messages; every queue has between one and 32 messages, and no more than 128 KiB unless it
  -- is a single message; there are at most 4096 messages and 8 MiB in all.
  pub run-IsBounded : (cs : List Call) → IsBounded (run cs no_requests)
  unfolding lookup
  run-IsBounded cs = keeps-IsBounded cs no_requests (record {
    accounts = λ pid. refl;
    queues = λ pid q e. absurd (cc);
    count = omega arith;
    bytes = omega arith;
  })
