-- ===== src/History/Removals.antt =====
-- What the deletions remove and what they leave.
use lan_chat.Base.{
  ℕ, ◌+◌, String, ◌≡◌, ◌≢◌, ◌↔◌, refl, inl, inr, Bool, true, false, not, ◌||◌, Option, none, some,
  List, [], ◌∷◌, arith, length, keep, length-keep, ◌==◌, str_eq, Bool-cases,
}
use lan_chat.History.Types.{Message, Library}
use lan_chat.History.Store.{
  Store, Env, is_key, clear_history_for_peer, delete_message, find_message, find_in,
}
use lan_chat.History.Page.{page_of, history_for_peer}
use lan_chat.History.Changes.{history-save}

module _ (p q : Message → Bool) where
  keep-keep :
      (ms : List Message)
      → ((m : Message) → p m ≡ true → q m ≡ true)
      → keep p (keep q ms) ≡ keep p ms
  keep-keep [] h = refl
  keep-keep (m ∷ ms) h = ground (arith, h m, keep-keep ms h)

  keep-keep_none :
      (ms : List Message) → ((m : Message) → q m ≡ true → p m ≡ false) → keep p (keep q ms) ≡ []
  keep-keep_none [] h = refl
  keep-keep_none (m ∷ ms) h = ground (arith, h m, keep-keep_none ms h)

length-keep-not :
    (p : Message → Bool) (ms : List Message)
    → length (keep (λ m. not (p m)) ms) + length (keep p ms) ≡ length ms
length-keep-not p [] = omega arith
length-keep-not p (m ∷ ms) = ground (arith, length-keep-not p ms)

abbrev is_some {ℓ} : {A : Type ℓ} → Option A → Bool
is_some none = false
is_some (some _) = true

none_of {ℓ} : {A : Type ℓ} (o : Option A) → is_some o ≡ false → o ≡ none
none_of none h = refl
none_of (some a) h = cc

some_of {ℓ} : {A : Type ℓ} (o : Option A) → is_some o ≡ true → o ≢ none
some_of none h e = cc
some_of (some a) h e = cc

module _ (mid : String) where
  find_in-none : (ms : List Message) → find_in mid (keep (λ m. not (is_key mid m.mid)) ms) ≡ none
  unfolding find_in
  find_in-none [] = refl
  find_in-none (m ∷ ms) = ground (arith, find_in-none ms)

  find_in-IsSome :
      (ms : List Message)
      → is_some (find_in mid ms) ≡ not (length (keep (λ m. not (is_key mid m.mid)) ms) == length ms)
  unfolding find_in
  find_in-IsSome [] = refl
  find_in-IsSome (m ∷ ms) =
      ground (arith, find_in-IsSome ms, length-keep (λ m. not (is_key mid m.mid)) ms)

-- Clearing a peer's thread returns the number of messages that it had, and leaves the thread empty on
-- every page; any selection of messages neither to nor from the peer reads as before.
pub clear_history_for_peer-IsCleared :
    (lib : Library) (env : Env) (peer : String) (s : Store)
    → ((clear_history_for_peer lib env peer s).0 ≡ (history_for_peer peer 0 0 s).0)
      × ((offset limit : ℕ)
          → history_for_peer peer offset limit (clear_history_for_peer lib env peer s).1 ≡ (0, []))
      × ((test : Message → Bool)
          → ((m : Message) → test m ≡ true → (is_key peer m.to || is_key peer m.from) ≡ false)
          → keep test (clear_history_for_peer lib env peer s).1.history ≡ keep test s.history)
unfolding clear_history_for_peer history_for_peer page_of
clear_history_for_peer-IsCleared lib env peer s =
    let test : Message → Bool = λ m. is_key peer m.to || is_key peer m.from in
    let left = keep (λ m. not (test m)) s.history in
    let s1 : Store = record s { history = left } in
    let gone : keep test left ≡ [] =
      keep-keep_none test (λ m. not (test m)) s.history (λ m h. ground arith) in
    (
      omega (arith, length-keep-not test s.history),
      λ offset limit. rw (history_for_peer, history-save lib env s1, gone),
      λ other h.
          rw (history-save lib env s1)
            (keep-keep other (λ m. not (test m)) s.history (λ m t. ground (arith, h m t))),
    )

-- Deleting a message returns true exactly if there is a message of that id, which is not empty; none
-- is found afterwards, and any selection of messages of other ids reads as before.
pub delete_message-IsDeleted :
    (lib : Library) (env : Env) (mid : String) (s : Store)
    → str_eq mid "" ≡ false
    → (((delete_message lib env mid s).0 ≡ true) ↔ (find_message mid s ≢ none))
      × (find_message mid (delete_message lib env mid s).1 ≡ none)
      × ((test : Message → Bool)
          → ((m : Message) → test m ≡ true → is_key mid m.mid ≡ false)
          → keep test (delete_message lib env mid s).1.history ≡ keep test s.history)
unfolding delete_message find_message
delete_message-IsDeleted lib env mid s h =
    let test : Message → Bool = λ m. not (is_key mid m.mid) in
    let left = keep test s.history in
    let found = find_in-IsSome mid s.history in
    let gone = find_in-none mid s.history in
    let others : (other : Message → Bool)
        → ((m : Message) → other m ≡ true → is_key mid m.mid ≡ false)
        → keep other left ≡ keep other s.history =
      λ other k. keep-keep other test s.history (λ m t. ground (arith, k m t)) in
    elim (Bool-cases (length left == length s.history)) [
      | inl same ↦
          let missing : is_some (find_in mid s.history) ≡ false = rw (found, same) in
          rw (delete_message, find_message, h, same)
            ((λ k. absurd (cc), λ k. absurd (k (none_of _ missing))), gone, others)
      | inr fewer ↦
          let hit : is_some (find_in mid s.history) ≡ true = rw (found, fewer) in
          rw
            (
              delete_message,
              find_message,
              h,
              fewer,
              history-save lib env (record s { history = left }),
            )
            ((λ k e. absurd (some_of _ hit e), λ k. refl), gone, others)
    ]
