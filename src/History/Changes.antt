-- ===== src/History/Changes.antt =====
-- What each operation changes in the history, and what it leaves.
use lan_chat.Base.{
  suc, ◌-◌, String, ◌≡◌, ◌≢◌, refl, ap, ◌∙◌, sym, inl, inr, ◌⊎◌, min, take, length-append,
  length-drop, take-append-drop, Bool, true, false, none, some, List, [], ◌∷◌, ◌++◌, arith, length,
  All, ltb, str_eq, eq_iff, eq_refl, Bool-cases, Option-cases, if◌then◌else◌,
}
use lan_chat.History.Types.{Message, Library}
use lan_chat.History.Store.{
  Store, Env, history_limit, last, is_key, change_first, save_history_locked, append_history,
  change_message, attached, flag, mark_attachment_gone, mark_attachment_dismissed,
  mark_attachment_saved, edit_message, mid_of, has_mid, has_mid_in,
}

-- `ms'` is `ms` with the first message that passes the test changed.
pub record ChangesFirst (test : Message → Bool) (change : Message → Message) (ms ms' : List Message)
    : Type 0 where
  pub before : List Message
  pub target : Message
  pub after : List Message
  pub whole : ms ≡ before ++ target ∷ after
  pub earlier : All (λ m. test m ≡ false) before
  pub hit : test target ≡ true
  pub result : ms' ≡ before ++ change target ∷ after

change_first-ChangesFirst :
    (test : Message → Bool) (change : Message → Message) (ms : List Message) {ms' : List Message}
    → change_first test change ms ≡ some ms'
    → ChangesFirst test change ms ms'
unfolding change_first
change_first-ChangesFirst test change [] h = absurd (cc)
change_first-ChangesFirst test change (m ∷ ms) {ms'} h = elim (Bool-cases (test m)) [
  | inl hit ↦ record {
    before = [];
    target = m;
    after = ms;
    whole = refl;
    earlier = tt;
    hit = hit;
    result = ground (arith, hit);
  }
  | inr miss ↦ elim (Option-cases (change_first test change ms)) [
    | inl e ↦ absurd (ground (arith, miss, e))
    | inr (r, e) ↦
        let tail = change_first-ChangesFirst test change ms e in
        record {
          before = m ∷ tail.before;
          target = tail.target;
          after = tail.after;
          whole = ap (◌∷◌ m) tail.whole;
          earlier = (miss, tail.earlier);
          hit = tail.hit;
          result =
              let grown : m ∷ r ≡ ms' = ground (arith, miss, e) in
              sym grown ∙ ap (◌∷◌ m) tail.result;
        }
  ]
]

change_first-none :
    (test : Message → Bool) (change : Message → Message) (ms : List Message)
    → change_first test change ms ≡ none
    → All (λ m. test m ≡ false) ms
unfolding change_first
change_first-none test change [] h = tt
change_first-none test change (m ∷ ms) h =
    ground (arith, change_first-none test change ms, Option-cases (change_first test change ms))

pub history-save :
    (lib : Library) (env : Env) (s : Store) → (save_history_locked lib env s).history ≡ s.history
unfolding save_history_locked
history-save lib env s = ground arith

-- The outcome of a change: true and exactly the first match changed, or false, no match, and nothing
-- changed.
abbrev pub Changed : (Message → Bool) → (Message → Message) → Store → Bool × Store → Type 0
Changed test change s (done, s') =
    ((done ≡ true) × ChangesFirst test change s.history s'.history)
    ⊎ ((done ≡ false) × All (λ m. test m ≡ false) s.history × (s' ≡ s))

change_message-Changed :
    (lib : Library) (env : Env) (test : Message → Bool) (change : Message → Message) (s : Store)
    → Changed test change s (change_message lib env test change s)
unfolding change_message
change_message-Changed lib env test change s =
    elim (Option-cases (change_first test change s.history)) [
      | inl e ↦ rw (change_message, e) (inr (refl, change_first-none test change s.history e, refl))
      | inr (ms, e) ↦
          rw (change_message, e)
            (inl (
              refl,
              rw (history-save lib env (record s { history = ms }))
                  (change_first-ChangesFirst test change s.history e),
            ))
    ]

-- For a message id that is not empty, each of the three attachment flags is set on the first message
-- of that id that has an attachment, everything else staying as it is, and the call returns true; or
-- there is no such message, the call returns false and nothing changes.
pub mark_attachment-Changed :
    (lib : Library) (env : Env) (mid : String) (s : Store)
    → str_eq mid "" ≡ false
    → Changed
        (attached mid)
        (flag (λ a. record a { gone = true }))
        s
        (mark_attachment_gone lib env mid s)
      × Changed
          (attached mid)
          (flag (λ a. record a { dismissed = true }))
          s
          (mark_attachment_dismissed lib env mid s)
      × Changed
          (attached mid)
          (flag (λ a. record a { accepted = true }))
          s
          (mark_attachment_saved lib env mid s)
unfolding mark_attachment_gone mark_attachment_dismissed mark_attachment_saved
mark_attachment-Changed lib env mid s h =
    rw (mark_attachment_gone, mark_attachment_dismissed, mark_attachment_saved, h)
      (
        change_message-Changed lib env (attached mid) _ s,
        change_message-Changed lib env (attached mid) _ s,
        change_message-Changed lib env (attached mid) _ s,
      )

-- An edit whose text is not blank replaces the text of the first message of that id by the stripped
-- one and marks it as edited, everything else staying as it is, and returns true; or there is no
-- such message, the call returns false and nothing changes. An edit whose text is blank returns
-- false and changes nothing.
pub edit_message-Changed :
    (lib : Library) (env : Env) (mid new_text : String) (s : Store)
    → (str_eq (lib.strip new_text) "" ≡ false
        → Changed
            (λ m. is_key mid m.mid)
            (λ m. record m { text = lib.strip new_text; edited = true })
            s
            (edit_message lib env mid new_text s))
      × (str_eq (lib.strip new_text) "" ≡ true → edit_message lib env mid new_text s ≡ (false, s))
unfolding edit_message
edit_message-Changed lib env mid new_text s = (
  λ h. rw (edit_message, h) (change_message-Changed lib env (λ m. is_key mid m.mid) _ s),
  λ h. rw (edit_message, h),
)

newest : List Message → List Message
newest ms = if ltb history_limit (length ms) then last history_limit ms else ms

newest_lem :
    (ms : List Message)
    → ((dropped : List Message) × (ms ≡ dropped ++ newest ms))
      × (length (newest ms) ≡ min history_limit (length ms))
unfolding newest
newest_lem ms = elim (Bool-cases (ltb history_limit (length ms))) [
  | inl over ↦
      let n = length ms - history_limit in
      rw (newest, over)
        ((take n ms, sym (take-append-drop n ms)), ground (arith, over, length-drop n ms))
  | inr fits ↦ rw (newest, fits) (([], refl), ground (arith, fits))
]

-- A message appended is the newest of the history, under an id that now counts as seen; the
-- history is the newest part of the old one with the message, all of it up to five hundred; no other
-- id becomes seen or is forgotten.
pub append_history-IsNewest :
    (lib : Library) (env : Env) (m : Message) (s : Store)
    → ((dropped : List Message) × (s.history ++ record m { mid = some (mid_of lib env m.mid) } ∷ []
          ≡ dropped ++ (append_history lib env m s).history))
      × (length (append_history lib env m s).history ≡ min history_limit (suc (length s.history)))
      × (has_mid (mid_of lib env m.mid) (append_history lib env m s) ≡ true)
      × ((j : String)
          → j ≢ mid_of lib env m.mid
          → has_mid j (append_history lib env m s) ≡ has_mid j s)
unfolding append_history has_mid has_mid_in save_history_locked newest
append_history-IsNewest lib env m s =
    let mid = mid_of lib env m.mid in
    let added : Message = record m { mid = some mid } in
    let grown = s.history ++ added ∷ [] in
    let (whole, size) = newest_lem grown in
    let s1 : Store = record {
      history = newest grown;
      seen_mids = mid ∷ s.seen_mids;
      file = s.file;
    } in
    (
      rw (history-save lib env s1) whole,
      rw (history-save lib env s1) (omega (arith, size, length-append s.history (added ∷ []))),
      rw (append_history, seen-save mid s1) (ground (arith, eq_refl mid)),
      λ j n. rw (append_history, seen-save j s1) (ground (arith, eq_iff mid j)),
    )
  where
    seen-save :
        (j : String) (s1 : Store) → has_mid j (save_history_locked lib env s1) ≡ has_mid j s1
    seen-save j s1 = ground arith
