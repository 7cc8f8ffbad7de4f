-- ===== src/Saving/Asked.antt =====
-- What accepting a file does.
use lan_chat.Base.{
  ℕ, ◌≡◌, ◌≢◌, refl, ◌⊎◌, inl, inr, String, true, false, not, ◌&&◌, none, some, List, arith, str_eq,
  eq_iff, if_cases, Option-cases, if◌then◌else◌,
}
use lan_chat.Dict.{lookup, insert, erase, lookup-insert, lookup-erase, lookup-insert_self}
use lan_chat.Download.Types.{Entry, Board, Refusal}
use lan_chat.Download.Begin.{BeginEnv, Request, purge, new_entry, accepted, part_of}
use lan_chat.Files.{open_wb}
use lan_chat.Download.BeginCases.{dl_begin_cases}
use lan_chat.Download.Finish.{dl_finish}
use lan_chat.Friends.Types.{World, Env, file_request, file_error, send}
use lan_chat.Friends.Ledger.{is_trusted}
use lan_chat.Friends.Send.{find_peer}
use lan_chat.Saving.Name.{safe_filename}
use lan_chat.Saving.Desk.{
  refusal_error, Desk, Save, Answer, unknown_sender, no_friend, refusal, sender_offline, asked,
  joined_path, save_request, ask, begin_save, accept_attachment,
}

-- A sender that the file may be asked of: on the network, and a friend if the file is of a room.
abbrev pub MayAsk : Save → Desk → Type 0
MayAsk c d =
    (c.from ≢ "")
    × (find_peer c.from d.daemon ≢ none)
    × ((c.room ≡ "") ⊎ (is_trusted c.from d.daemon ≡ true))

-- What each answer says of the sender, and of the state and the messages that go out.
pub data IsAnswered (w : World) (env : Env) (benv : BeginEnv) (dir : String) (c : Save)
    (d d' : Desk) : Answer → Type 0 where
  asks :
      (e : Entry)
      → MayAsk c d
      → env.sends c.from ≡ true
      → ((k : String)
          → lookup k d'.board.dl
            ≡ (if str_eq c.file_id k then some e else lookup k (purge benv.now d.board).dl))
      → e.peer ≡ c.from
      → e.save_to ≡ joined_path dir (safe_filename w.is_printable c.name)
      → d'.daemon ≡ send (file_request c.from c.file_id c.mid) d.daemon
      → IsAnswered w env benv dir c d d' asked
  lost :
      (c.from ≡ "") ⊎ (find_peer c.from d.daemon ≡ none)
      → d' ≡ d
      → IsAnswered w env benv dir c d d' unknown_sender
  untrusted :
      find_peer c.from d.daemon ≢ none
      → c.room ≢ ""
      → is_trusted c.from d.daemon ≡ false
      → d' ≡ d
      → IsAnswered w env benv dir c d d' no_friend
  refuses :
      (reason : Refusal)
      → MayAsk c d
      → d'.board.dl ≡ (purge benv.now d.board).dl
      → d'.board.last_refusal_reason ≡ some reason
      → d'.daemon ≡ send (file_error c.from c.file_id c.mid (refusal_error (some reason))) d.daemon
      → IsAnswered w env benv dir c d d' refusal
  unsent :
      MayAsk c d
      → env.sends c.from ≡ false
      → ((k : String)
          → lookup k d'.board.dl
            ≡ (if str_eq c.file_id k then none else lookup k (purge benv.now d.board).dl))
      → d'.daemon ≡ d.daemon
      → IsAnswered w env benv dir c d d' sender_offline

dl_finish-erase :
    (hexdigest : List ℕ → String) (file_id pid : String) (b : Board) (e : Entry)
    → lookup file_id b.dl ≡ some e
    → e.peer ≡ pid
    → (dl_finish hexdigest false file_id pid false b).1.dl ≡ erase file_id b.dl
unfolding dl_finish
dl_finish-erase hexdigest file_id pid b e found peer =
    rw (found, dl_finish, (eq_iff e.peer pid).1 peer) refl

module _ (w : World) (hexdigest : List ℕ → String) (env : Env) (benv : BeginEnv) (dir : String)
    (c : Save) (d : Desk) where
  abbrev Answered : Answer × Desk → Type 0
  Answered (a, d') = IsAnswered w env benv dir c d d' a

  begin_save-IsAnswered : MayAsk c d → Answered (begin_save w hexdigest env benv dir c d)
  unfolding begin_save ask
  begin_save-IsAnswered may =
      dl_begin_cases benv r d.board
        (λ o. Answered (
          if o.0 then ask w hexdigest env c (record d { board = o.1 }) else (
            refusal,
            record {
              daemon =
                  send (file_error c.from c.file_id c.mid (refusal_error o.1.last_refusal_reason))
                    d.daemon;
              board = o.1;
            },
          )))
        (λ reason fs k. refuses reason may refl refl refl)
        (λ _.
          opened (new_entry benv r purged.limits (open_wb purged.files (part_of r.save_to)).1)
            (accepted benv r (open_wb purged.files (part_of r.save_to)).0
              (open_wb purged.files (part_of r.save_to)).1 purged).1
            refl refl refl)
    where
      r : Request
      r = save_request w hexdigest dir c d.daemon

      purged : Board
      purged = purge benv.now d.board

      stored :
          (e : Entry) (b : Board)
          → b.dl ≡ insert c.file_id e purged.dl
          → (k : String)
          → lookup k b.dl ≡ (if str_eq c.file_id k then some e else lookup k purged.dl)
      stored e b put k = rw put (lookup-insert c.file_id k e purged.dl)

      gone :
          (e : Entry) (b : Board)
          → b.dl ≡ insert c.file_id e purged.dl
          → e.peer ≡ c.from
          → (k : String)
          → lookup k (dl_finish hexdigest false c.file_id c.from false b).1.dl
            ≡ (if str_eq c.file_id k then none else lookup k purged.dl)
      gone e b put peer k =
          let here : lookup c.file_id b.dl ≡ some e =
            rw put (lookup-insert_self c.file_id e purged.dl) in
          rw
            (
              dl_finish-erase hexdigest c.file_id c.from b e here peer,
              put,
              lookup-erase c.file_id k (insert c.file_id e purged.dl),
              lookup-insert c.file_id k e purged.dl,
            )
            (ground arith)

      opened :
          (e : Entry) (b : Board)
          → b.dl ≡ insert c.file_id e purged.dl
          → e.peer ≡ c.from
          → e.save_to ≡ joined_path dir (safe_filename w.is_printable c.name)
          → Answered (ask w hexdigest env c (record d { board = b }))
      opened e b put peer path =
          if_cases Answered (env.sends c.from) (λ s. asks e may s (stored e b put) peer path refl)
            (λ s. unsent may s (gone e b put peer) refl)

  -- A file is asked for only from a peer that is on the network and reached, and a friend if the file is
  -- of a room; its transfer then stands in the table, to a safe name in the download directory. A sender
  -- that is blank or unknown, or no friend in a room, changes nothing and is sent nothing. A refusal is
  -- told to the sender with its reason, and a sender that is not reached is sent nothing; neither leaves
  -- a new transfer.
  pub accept_attachment-IsAnswered :
      IsAnswered w env benv dir c d
        (accept_attachment w hexdigest env benv dir c d).1
        (accept_attachment w hexdigest env benv dir c d).0
  unfolding accept_attachment
  accept_attachment-IsAnswered =
      if_cases Answered (str_eq c.from "") (λ t. lost (inl ((eq_iff c.from "").0 t)) refl)
        (λ named. elim (Option-cases (find_peer c.from d.daemon)) [
          | inl e ↦ rw e (lost (inr e) refl)
          | inr (p, e) ↦
              let there : find_peer c.from d.daemon ≢ none = λ h. ground (arith, e, h) in
              rw e (
                if_cases Answered (not (str_eq c.room "") && not (is_trusted c.from d.daemon))
                  (λ t. untrusted there (of_room t) (ground (arith, t)) refl)
                  (λ t. begin_save-IsAnswered (of_named named, there, friend t)))
        ])
    where
      of_named : str_eq c.from "" ≡ false → c.from ≢ ""
      of_named n h = ground (arith, n, h, eq_iff c.from "")

      of_room : not (str_eq c.room "") && not (is_trusted c.from d.daemon) ≡ true → c.room ≢ ""
      of_room t h = ground (arith, t, h, eq_iff c.room "")

      friend :
          not (str_eq c.room "") && not (is_trusted c.from d.daemon) ≡ false
          → (c.room ≡ "") ⊎ (is_trusted c.from d.daemon ≡ true)
      friend t = ground (arith, t, eq_iff c.room "")
