-- ===== src/History/Store.antt =====
-- The store of history.py and its operations. `now_writes` is false where the write of the file
-- fails; the module then goes on with what it holds in memory.
use lan_chat.Base.{
  ℕ, ◌-◌, String, Bool, true, false, not, ◌&&◌, ◌||◌, Option, none, some, List, [], ◌∷◌, ◌++◌,
  length, drop, keep, ltb, ◌==◌, str_eq, if◌then◌else◌,
}
use lan_chat.History.Types.{Attachment, Message, Json, messages, other, Library}
use lan_chat.History.Blob.{history_encrypt, history_decrypt}

abbrev pub history_limit : ℕ
history_limit = 500

pub record Store : Type 0 where
  pub history : List Message
  pub seen_mids : List String
  pub file : Option String

-- What a call finds: whether the cryptography library is there, the key, a fresh nonce and message
-- id, and whether the file can be written.
pub record Env : Type 0 where
  pub crypto : Bool
  pub key : List ℕ
  pub nonce : List ℕ
  pub fresh_mid : String
  pub writes : Bool

-- `xs[-n:]`
abbrev pub last {ℓ} : {A : Type ℓ} → ℕ → List A → List A
last n xs = drop (length xs - n) xs

-- `k == m.get(field)`
abbrev pub is_key : String → Option String → Bool
is_key k none = false
is_key k (some j) = str_eq j k

-- The first message that passes the test is changed; none if there is no such message.
unfoldable pub change_first :
    (Message → Bool) → (Message → Message) → List Message → Option (List Message)
change_first test change [] = none
change_first test change (m ∷ ms) =
    let rest = change_first test change ms in
    if test m then some (change m ∷ ms) else elim rest [ none ↦ none | some r ↦ some (m ∷ r) ]

-- A message with this id and an attachment.
abbrev pub attached : String → Message → Bool
attached mid m = is_key mid m.mid && elim m.attachment [ none ↦ false | some a ↦ true ]

abbrev pub flag : (Attachment → Attachment) → Message → Message
flag set m = record m { attachment = elim m.attachment [ none ↦ none | some a ↦ some (set a) ] }

module _ (lib : Library) where
  unfoldable pub file_text : Env → List Message → String
  file_text env ms =
      if env.crypto
      then history_encrypt lib env.key env.nonce (lib.encode (lib.dumps ms))
      else lib.dumps ms

  unfoldable pub save_history_locked : Env → Store → Store
  unfolding file_text
  save_history_locked env s =
      if env.writes then record s { file = some (file_text env s.history) } else s

  abbrev decrypted : Env → String → Option Json
  decrypted env text = elim (history_decrypt lib env.key text) [
    | none ↦ none
    | some plain ↦ elim (lib.decode plain) [ none ↦ none | some json ↦ lib.loads json ]
  ]

  -- The decrypted form first, then the plain one of older versions.
  unfoldable pub parse_file : Env → String → Option Json
  parse_file env text =
      let plain = lib.loads text in
      if env.crypto && not (str_eq text "")
      then elim (decrypted env text) [
        | some (messages ms) ↦ some (messages ms)
        | some other ↦ some other
        | _ ↦ plain
      ]
      else plain

  -- The messages that a file, if there is one, gives back.
  unfoldable pub loaded : Env → Option String → List Message
  unfolding parse_file
  loaded env none = []
  loaded env (some text) = elim (parse_file env text) [
    | some (messages ms) ↦ last history_limit ms
    | _ ↦ []
  ]

  unfoldable pub load_history : Env → Store → Store
  unfolding loaded
  load_history env s = record s { history = loaded env s.file }

  -- The id of a new message: its own, or a fresh one where it has none.
  abbrev pub mid_of : Env → Option String → String
  mid_of env none = env.fresh_mid
  mid_of env (some mid) = if str_eq mid "" then env.fresh_mid else mid

  unfoldable pub append_history : Env → Message → Store → Store
  unfolding save_history_locked
  append_history env m s =
      let mid = mid_of env m.mid in
      let message = record m { mid = some mid } in
      let grown = s.history ++ message ∷ [] in
      save_history_locked env (record s {
        seen_mids = mid ∷ s.seen_mids;
        history = if ltb history_limit (length grown) then last history_limit grown else grown;
      })

  -- What the three flags and the edit share: change the first match and save, or report that there
  -- is none.
  unfoldable pub change_message :
      Env → (Message → Bool) → (Message → Message) → Store → Bool × Store
  unfolding change_first save_history_locked
  change_message env test change s = elim (change_first test change s.history) [
    | none ↦ (false, s)
    | some ms ↦ (true, save_history_locked env (record s { history = ms }))
  ]

  unfoldable pub mark_attachment_gone : Env → String → Store → Bool × Store
  unfolding change_message
  mark_attachment_gone env mid s =
      if str_eq mid ""
      then (false, s)
      else change_message env (attached mid) (flag (λ a. record a { gone = true })) s

  unfoldable pub mark_attachment_dismissed : Env → String → Store → Bool × Store
  unfolding change_message
  mark_attachment_dismissed env mid s =
      if str_eq mid ""
      then (false, s)
      else change_message env (attached mid) (flag (λ a. record a { dismissed = true })) s

  unfoldable pub mark_attachment_saved : Env → String → Store → Bool × Store
  unfolding change_message
  mark_attachment_saved env mid s =
      if str_eq mid ""
      then (false, s)
      else change_message env (attached mid) (flag (λ a. record a { accepted = true })) s

  unfoldable pub clear_history_for_peer : Env → String → Store → ℕ × Store
  unfolding save_history_locked
  clear_history_for_peer env peer s =
      let ms = keep (λ m. not (is_key peer m.to || is_key peer m.from)) s.history in
      (length s.history - length ms, save_history_locked env (record s { history = ms }))

  unfoldable pub clear_all_history : Env → Store → ℕ × Store
  unfolding save_history_locked
  clear_all_history env s = (length s.history, save_history_locked env (record s { history = [] }))

  unfoldable pub delete_message : Env → String → Store → Bool × Store
  unfolding save_history_locked
  delete_message env mid s =
      let ms = keep (λ m. not (is_key mid m.mid)) s.history in
      let s' = record s { history = ms } in
      if length ms == length s.history then (false, s') else (true, save_history_locked env s')

  unfoldable pub edit_message : Env → String → String → Store → Bool × Store
  unfolding change_message
  edit_message env mid new_text s =
      let text = lib.strip new_text in
      if str_eq text ""
      then (false, s)
      else change_message env (λ m. is_key mid m.mid) (λ m. record m { text = text; edited = true })
          s

-- `mid in _seen_mids`
unfoldable pub has_mid_in : String → List String → Bool
has_mid_in mid [] = false
has_mid_in mid (x ∷ xs) = if str_eq x mid then true else has_mid_in mid xs

unfoldable pub has_mid : String → Store → Bool
unfolding has_mid_in
has_mid mid s = has_mid_in mid s.seen_mids

unfoldable pub find_in : String → List Message → Option Message
find_in mid [] = none
find_in mid (m ∷ ms) = if is_key mid m.mid then some m else find_in mid ms

unfoldable pub find_message : String → Store → Option Message
unfolding find_in
find_message mid s = if str_eq mid "" then none else find_in mid s.history
