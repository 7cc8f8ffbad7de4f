-- ===== src/Saving/Desk.antt =====
-- The commands about attachments and the end of a download: `acceptAttachment` and
-- `dismissAttachment` of server.py's `handle_command`, the frames of a transfer in `_handle_incoming`,
-- and `refusal_error` and `_finalize_download` of attachments.py.
use Prim.Native.Char.{code}
use Prim.Native.String.{[] as nil, ◌∷◌ as ◌∷ₛ◌, ◌++◌ as ◌⧺◌}
use lan_chat.Base.{
  ℕ, String, Bool, true, false, not, ◌&&◌, ◌||◌, Option, none, some, List, ◌==◌, str_eq,
  if◌then◌else◌,
}
use lan_chat.Base.Int.{pos}
use lan_chat.Dict.{lookup}
use lan_chat.History.Types.{Message}
use lan_chat.History.Store.{
  find_message, mark_attachment_saved, mark_attachment_dismissed, mark_attachment_gone,
}
use lan_chat.Download.Types.{Refusal, per_peer, max_concurrent, disk_budget, file_cap, Board}
use lan_chat.Download.Begin.{BeginEnv, Request, dl_begin}
use lan_chat.Download.Finish.{Outcome, saved, set_expected_digest, dl_finish, dl_peer}
use lan_chat.Rooms.Types.{FileMeta}
use lan_chat.Rooms.Files.{report_file_status}
use lan_chat.Friends.Types.{Daemon, World, Env, file_request, file_error, send}
use lan_chat.Friends.Ledger.{is_trusted}
use lan_chat.Friends.Incoming.{room_env, with_rooms}
use lan_chat.Friends.Send.{find_peer}
use lan_chat.Saving.Name.{safe_filename}

pub record Desk : Type 0 where
  pub daemon : Daemon
  pub board : Board

-- The command: the sender, the room of the message or "", and what the message said of the file.
pub record Save : Type 0 where
  pub from : String
  pub room : String
  pub file_id : String
  pub name : String
  pub mid : String
  pub sha256 : String

pub data Answer : Type 0 where
  unknown_sender no_friend refusal sender_offline asked : Answer

-- The error for the peer; the text for the user interface is left out.
abbrev pub refusal_error : Option Refusal → String
refusal_error (some per_peer) = "busy"
refusal_error (some max_concurrent) = "busy"
refusal_error (some file_cap) = "file limit"
refusal_error (some disk_budget) = "disk limit"
refusal_error _ = "cannot open download file"

abbrev pub ends_in_slash : String → Bool
ends_in_slash nil = false
ends_in_slash (c ∷ₛ nil) = code c == 47
ends_in_slash (c ∷ₛ (d ∷ₛ s)) = ends_in_slash (d ∷ₛ s)

-- `os.path.join` with a name that does not start with a slash
unfoldable pub joined_path : String → String → String
joined_path dir name = if str_eq dir "" || ends_in_slash dir then dir ⧺ name else dir ⧺ ("/" ⧺ name)

-- The size that the message of the file gives, or 0.
unfoldable pub declared_total : Option Message → ℕ
declared_total none = 0
declared_total (some m) = elim m.attachment [ none ↦ 0 | some a ↦ a.size ]

module _ (w : World) (hexdigest : List ℕ → String) where
  unfoldable pub save_request : String → Save → Daemon → Request
  unfolding safe_filename joined_path declared_total find_message
  save_request dir c s = record {
    file_id = c.file_id;
    peer_id = c.from;
    save_to = joined_path dir (safe_filename w.is_printable c.name);
    sha256 = c.sha256;
    mid = c.mid;
    room = c.room;
    total = pos (declared_total (find_message c.mid s.store));
  }

  -- The transfer is open: the sender is asked for the file, or the transfer ends where it cannot be.
  unfoldable pub ask : Env → Save → Desk → Answer × Desk
  unfolding dl_finish
  ask env c d =
      let asking = send (file_request c.from c.file_id c.mid) d.daemon in
      if env.sends c.from then (asked, record d { daemon = asking }) else (
        sender_offline,
        record d { board = (dl_finish hexdigest false c.file_id c.from false d.board).1 },
      )

  unfoldable pub begin_save : Env → BeginEnv → String → Save → Desk → Answer × Desk
  unfolding ask dl_begin save_request
  begin_save env benv dir c d =
      let (ok, board) = dl_begin benv (save_request dir c d.daemon) d.board in
      let told =
        send (file_error c.from c.file_id c.mid (refusal_error board.last_refusal_reason))
          d.daemon in
      let going = ask env c (record d { board = board }) in
      if ok then going else (refusal, record { daemon = told; board = board })

  unfoldable pub accept_attachment : Env → BeginEnv → String → Save → Desk → Answer × Desk
  unfolding begin_save
  accept_attachment env benv dir c d =
      let begun = begin_save env benv dir c d in
      if str_eq c.from "" then (unknown_sender, d) else elim (find_peer c.from d.daemon) [
        | none ↦ (unknown_sender, d)
        | some p ↦
            if not (str_eq c.room "") && not (is_trusted c.from d.daemon)
            then (no_friend, d)
            else begun
      ]

  unfoldable pub dismiss_attachment : Env → String → Desk → Desk
  unfolding mark_attachment_dismissed
  dismiss_attachment env mid d = record d {
    daemon = record d.daemon {
      store = (mark_attachment_dismissed w.lib env.hist mid d.daemon.store).1;
    };
  }

  abbrev pub file_meta : String → String → FileMeta
  file_meta mid file_id = record {
    mid = mid;
    file_id = file_id;
    attachment = record { name = ""; size = 0; gone = false; dismissed = false; accepted = false };
  }

  -- A file that was saved: the message is flagged, and the sender is told where it came from a room.
  unfoldable pub saved_file : Env → Outcome → String → String → Desk → Desk
  unfolding mark_attachment_saved report_file_status dl_peer with_rooms
  saved_file env o mid file_id d =
      let s = record d.daemon {
        store = (mark_attachment_saved w.lib env.hist mid d.daemon.store).1;
      } in
      let report =
        report_file_status (room_env w env s) o.room (dl_peer file_id d.board)
          (file_meta mid file_id) "saved" in
      let told = with_rooms w env (s.rooms, report) s in
      if str_eq o.room "" then record d { daemon = s } else record d { daemon = told }

  unfoldable pub finalize_download : Env → Option Outcome → String → String → Desk → Desk
  unfolding saved_file
  finalize_download env none mid file_id d = d
  finalize_download env (some o) mid file_id d = elim o.status [
    | saved ↦ saved_file env o mid file_id d
    | _ ↦ d
  ]

  -- `attachmentEnd`: `replaces` is false where the system refuses the rename.
  unfoldable pub end_frame : Env → Bool → String → String → String → String → Desk → Desk
  unfolding set_expected_digest dl_finish finalize_download
  end_frame env replaces pid file_id mid sha256 d =
      let b = set_expected_digest file_id pid sha256 d.board in
      let (o, b') = dl_finish hexdigest replaces file_id pid true b in
      finalize_download env o mid file_id (record d { board = b' })

  abbrev pub is_known : String → String → Board → Bool
  is_known pid file_id b = elim (lookup file_id b.dl) [ none ↦ false | some e ↦ str_eq e.peer pid ]

  -- `attachmentError`
  unfoldable pub error_frame : Env → String → String → String → String → Desk → Desk
  unfolding dl_finish finalize_download mark_attachment_gone
  error_frame env pid file_id mid text d =
      let (o, b) = dl_finish hexdigest false file_id pid false d.board in
      let ended = finalize_download env o mid file_id (record d { board = b }) in
      let gone = str_eq text "not found" || str_eq text "file missing" in
      let flagged = (mark_attachment_gone w.lib env.hist mid d.daemon.store).1 in
      if is_known pid file_id d.board
      then ended
      else if gone && not (str_eq mid "")
      then record d { daemon = record d.daemon { store = flagged } }
      else d
