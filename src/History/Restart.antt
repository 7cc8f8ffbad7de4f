-- ===== src/History/Restart.antt =====
-- What the daemon holds in memory is what it finds again after a restart.
use lan_chat.Base.{
  ℕ, ◌-◌, ◌≤◌, String, ◌≡◌, refl, sym, ◌∙◌, inl, inr, Bool, true, false, not, none, some, List, [],
  ◌∷◌, ◌++◌, arith, length, keep, length-keep, keep_all, length-drop, ltb, ◌==◌, str_eq, Bool-cases,
  Option-cases, if◌then◌else◌,
}
use lan_chat.History.Types.{Message, messages, Library, IsFaithful}
use lan_chat.History.Blob.{history_magic, history_encrypt, history_decrypt-history_encrypt}
use lan_chat.History.Store.{
  Store, Env, history_limit, last, is_key, change_first, file_text, save_history_locked, parse_file,
  loaded, load_history, append_history, change_message, mark_attachment_gone,
  mark_attachment_dismissed, mark_attachment_saved, clear_history_for_peer, clear_all_history,
  delete_message, edit_message,
}

-- The calls that change the history.
pub data Op : Type 0 where
  append : Message → Op
  gone dismissed saved delete clear_peer : String → Op
  edit : String → String → Op
  clear_all : Op

unfoldable pub apply : Library → Env → Op → Store → Store
apply lib env (append m) s = append_history lib env m s
apply lib env (gone mid) s = (mark_attachment_gone lib env mid s).1
apply lib env (dismissed mid) s = (mark_attachment_dismissed lib env mid s).1
apply lib env (saved mid) s = (mark_attachment_saved lib env mid s).1
apply lib env (delete mid) s = (delete_message lib env mid s).1
apply lib env (clear_peer peer) s = (clear_history_for_peer lib env peer s).1
apply lib env (edit mid text) s = (edit_message lib env mid text s).1
apply lib env clear_all s = (clear_all_history lib env s).1

unfoldable pub apply_all : Library → List (Env × Op) → Store → Store
apply_all lib [] s = s
apply_all lib ((env, op) ∷ ops) s = apply_all lib ops (apply lib env op s)

module _ (lib : Library) (law : IsFaithful lib) (writer reader : Env) (ms : List Message) where
  parse_plain :
      writer.crypto ≡ false
      → reader.crypto ≡ false
      → parse_file lib reader (file_text lib writer ms) ≡ some (messages ms)
  unfolding parse_file file_text
  parse_plain w r = rw (file_text, w, parse_file, r) (law.loads-dumps ms)

  parse_sealed :
      writer.crypto ≡ true
      → reader.crypto ≡ true
      → reader.key ≡ writer.key
      → length writer.nonce ≡ 12
      → parse_file lib reader (file_text lib writer ms) ≡ some (messages ms)
  unfolding parse_file file_text
  parse_sealed w r k n =
      let plain = lib.encode (lib.dumps ms) in
      let text = history_encrypt lib writer.key writer.nonce plain in
      let opened = history_decrypt-history_encrypt lib writer.key writer.nonce plain law n in
      let filled : str_eq text "" ≡ false = text_not_empty plain in
      rw (
        file_text,
        w,
        parse_file,
        r,
        k,
        filled,
        opened,
        law.decode-encode (lib.dumps ms),
        law.loads-dumps ms,
      )
    where
      text_not_empty :
          (plain : List ℕ) → str_eq (history_encrypt lib writer.key writer.nonce plain) "" ≡ false
      text_not_empty plain =
          unfold history_encrypt in
          law.b64_not_empty
            (history_magic ++ (writer.nonce ++ lib.encrypt writer.key writer.nonce plain))
            (omega arith)

module _ (lib : Library) (crypto : Bool) (key : List ℕ) where
  -- The cryptography library and the key are those of the installation, a nonce has twelve bytes,
  -- and the file can be written.
  pub record IsGood (env : Env) : Type 0 where
    pub crypto_same : env.crypto ≡ crypto
    pub key_same : env.key ≡ key
    pub nonce_length : length env.nonce ≡ 12
    pub writes : env.writes ≡ true

  abbrev pub AllGood : List (Env × Op) → Type 0
  AllGood [] = Unit {0}
  AllGood ((env, op) ∷ ops) = IsGood env × AllGood ops

  -- The file gives back the history, which is within its limit.
  pub record IsSynced (s : Store) : Type 0 where
    pub restored : (env : Env) → IsGood env → loaded lib env s.file ≡ s.history
    pub short : length s.history ≤ history_limit

  last_short : (ms : List Message) → length ms ≤ history_limit → last history_limit ms ≡ ms
  last_short ms h = let none_over : length ms - history_limit ≡ 0 = omega arith in rw none_over

  loaded-file_text :
      (law : IsFaithful lib) (writer reader : Env) (ms : List Message)
      → IsGood writer
      → IsGood reader
      → length ms ≤ history_limit
      → loaded lib reader (some (file_text lib writer ms)) ≡ ms
  unfolding loaded
  loaded-file_text law writer reader ms w r h = rw (loaded, parsed crypto refl) (last_short ms h)
    where
      parsed :
          (c : Bool)
          → crypto ≡ c
          → parse_file lib reader (file_text lib writer ms) ≡ some (messages ms)
      parsed true c =
          parse_sealed lib law writer reader ms (w.crypto_same ∙ c) (r.crypto_same ∙ c)
            (r.key_same ∙ sym w.key_same) w.nonce_length
      parsed false c = parse_plain lib law writer reader ms (w.crypto_same ∙ c) (r.crypto_same ∙ c)

  module _ (law : IsFaithful lib) (env : Env) (good : IsGood env) where
    save-IsSynced :
        (s : Store) → length s.history ≤ history_limit → IsSynced (save_history_locked lib env s)
    unfolding save_history_locked
    save-IsSynced s h =
        rw (save_history_locked, good.writes)
          (record {
            restored = λ reader r. loaded-file_text law env reader s.history good r h;
            short = h;
          })

    append-IsSynced : (m : Message) (s : Store) → IsSynced (append_history lib env m s)
    unfolding append_history
    append-IsSynced m s = save-IsSynced _ (length_last (s.history ++ _ ∷ []))
      where
        length_last :
            (ms : List Message)
            → length (if ltb history_limit (length ms) then last history_limit ms else ms)
              ≤ history_limit
        length_last ms = ground (arith, length-drop (length ms - history_limit) ms)

    length-change_first :
        (test : Message → Bool) (change : Message → Message) (ms : List Message)
        {ms' : List Message}
        → change_first test change ms ≡ some ms'
        → length ms' ≡ length ms
    unfolding change_first
    length-change_first test change [] h = cc
    length-change_first test change (m ∷ ms) h = elim (Option-cases (change_first test change ms)) [
      | inl e ↦ ground (arith, e)
      | inr (r, e) ↦ ground (arith, e, length-change_first test change ms e)
    ]

    change-IsSynced :
        (test : Message → Bool) (change : Message → Message) (s : Store)
        → IsSynced s
        → IsSynced (change_message lib env test change s).1
    unfolding change_message
    change-IsSynced test change s h = elim (Option-cases (change_first test change s.history)) [
      | inl e ↦ rw (change_message, e) h
      | inr (ms, e) ↦
          rw (change_message, e)
            (save-IsSynced (record s { history = ms })
              (omega (arith, length-change_first test change s.history e, h.short)))
    ]

    delete-IsSynced :
        (mid : String) (s : Store) → IsSynced s → IsSynced (delete_message lib env mid s).1
    unfolding delete_message
    delete-IsSynced mid s h =
        let test : Message → Bool = λ m. not (is_key mid m.mid) in
        elim (Bool-cases (length (keep test s.history) == length s.history)) [
          | inl same ↦ rw (delete_message, same) (rw (keep_all test s.history (ground arith)) h)
          | inr fewer ↦
              rw (delete_message, fewer)
                (save-IsSynced (record s { history = keep test s.history })
                  (omega (arith, length-keep test s.history, h.short)))
        ]

    unless :
        (b : Bool) (s : Store) (o : Bool × Store)
        → IsSynced s
        → IsSynced o.1
        → IsSynced (if b then (false, s) else o).1
    unless true s o h k = h
    unless false s o h k = k

    apply-IsSynced : (op : Op) (s : Store) → IsSynced s → IsSynced (apply lib env op s)
    unfolding apply mark_attachment_gone mark_attachment_dismissed mark_attachment_saved
        clear_history_for_peer clear_all_history edit_message
    apply-IsSynced (append m) s h = append-IsSynced m s
    apply-IsSynced (gone mid) s h = unless _ s _ h (change-IsSynced _ _ s h)
    apply-IsSynced (dismissed mid) s h = unless _ s _ h (change-IsSynced _ _ s h)
    apply-IsSynced (saved mid) s h = unless _ s _ h (change-IsSynced _ _ s h)
    apply-IsSynced (delete mid) s h = delete-IsSynced mid s h
    apply-IsSynced (clear_peer peer) s h =
        save-IsSynced _ (omega (arith, length-keep _ s.history, h.short))
    apply-IsSynced (edit mid text) s h = unless _ s _ h (change-IsSynced _ _ s h)
    apply-IsSynced clear_all s h = save-IsSynced _ (omega arith)

  apply_all-IsSynced :
      (law : IsFaithful lib) (ops : List (Env × Op)) (s : Store)
      → AllGood ops
      → IsSynced s
      → IsSynced (apply_all lib ops s)
  unfolding apply_all
  apply_all-IsSynced law [] s g h = h
  apply_all-IsSynced law ((env, op) ∷ ops) s g h =
      apply_all-IsSynced law ops (apply lib env op s) g.1 (apply-IsSynced law env g.0 op s h)

-- The store of a daemon that starts with no history file.
abbrev pub empty_store : Store
empty_store = record { history = []; seen_mids = []; file = none }

-- After any sequence of appends, flags, edits and deletions from a first start, a restart finds
-- exactly the messages that the daemon held, and these are at most five hundred: with encryption or
-- without, as long as the key and the presence of the cryptography library stay the same and the
-- writes of the file succeed.
pub load_history-apply_all :
    (lib : Library) (law : IsFaithful lib) (crypto : Bool) (key : List ℕ) (ops : List (Env × Op))
    (env : Env) (s : Store)
    → AllGood lib crypto key ops
    → IsGood lib crypto key env
    → s.file ≡ (apply_all lib ops empty_store).file
    → ((load_history lib env s).history ≡ (apply_all lib ops empty_store).history)
      × (length (load_history lib env s).history ≤ history_limit)
unfolding load_history
load_history-apply_all lib law crypto key ops env s g e f =
    let start : IsSynced lib crypto key empty_store = record {
      restored = λ reader r. unfold loaded in refl;
      short = omega arith;
    } in
    let end = apply_all-IsSynced lib crypto key law ops empty_store g start in
    rw (f, end.restored env e) (refl, end.short)
