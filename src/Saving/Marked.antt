-- ===== src/Saving/Marked.antt =====
-- What the frames of a transfer do to the history.
use mathlib.Core.Path.{subst}
use lan_chat.Base.{ℕ, ◌≡◌, refl, sym, String, Bool, true, some, List, str_eq, if_cases}
use lan_chat.Dict.{lookup, erase}
use lan_chat.History.Store.{Store, mark_attachment_saved}
use lan_chat.Download.Types.{Entry, Board}
use lan_chat.Download.Finish.{
  Outcome, Status, saved, mismatch, incomplete, aborted, close_entry, set_expected_digest,
}
use lan_chat.Download.FinishCases.{dl_finish_cases}
use lan_chat.Download.Outcomes.{Passes, saved-Passes}
use lan_chat.Rooms.Files.{report_file_status}
use lan_chat.Friends.Types.{World, Env, append_all}
use lan_chat.Friends.Incoming.{with_rooms}
use lan_chat.Saving.Desk.{Desk, saved_file, finalize_download, end_frame}

-- The history is as before; or the file of the peer's transfer is whole, has the digest that is expected
-- and was moved to its place, and the message of the frame is flagged.
pub data IsMarked (w : World) (hexdigest : List ℕ → String) (env : Env) (replaces : Bool)
    (pid file_id mid : String) (b : Board) (st : Store) : Store → Type 0 where
  unmarked : IsMarked w hexdigest env replaces pid file_id mid b st st
  marked :
      (e : Entry)
      → lookup file_id b.dl ≡ some e
      → e.peer ≡ pid
      → Passes hexdigest replaces true e b.files
      → IsMarked w hexdigest env replaces pid file_id mid b st
          (mark_attachment_saved w.lib env.hist mid st).1

module _ (w : World) (hexdigest : List ℕ → String) (env : Env) where
  saved_file-store :
      (o : Outcome) (mid file_id : String) (d : Desk)
      → (saved_file w hexdigest env o mid file_id d).daemon.store
        ≡ (mark_attachment_saved w.lib env.hist mid d.daemon.store).1
  unfolding saved_file with_rooms report_file_status append_all
  saved_file-store o mid file_id d =
      if_cases
        (λ (x : Desk). x.daemon.store ≡ (mark_attachment_saved w.lib env.hist mid d.daemon.store).1)
        (str_eq o.room "") (λ _. refl) (λ _. refl)

  finalize_download-store :
      (P : Store → Type 0) (o : Outcome) (mid file_id : String) (d : Desk)
      → P d.daemon.store
      → (o.status ≡ saved → P (mark_attachment_saved w.lib env.hist mid d.daemon.store).1)
      → P (finalize_download w hexdigest env (some o) mid file_id d).daemon.store
  unfolding finalize_download
  finalize_download-store P o mid file_id d same mark = by_status o.status refl
    where
      by_status :
          (st : Status)
          → o.status ≡ st
          → P (
              let x : Desk = elim st [
                | saved ↦ saved_file w hexdigest env o mid file_id d
                | _ ↦ d
              ] in
              x.daemon.store)
      by_status saved e = subst P (sym (saved_file-store o mid file_id d)) (mark e)
      by_status mismatch e = same
      by_status incomplete e = same
      by_status aborted e = same

  -- An end frame flags a message only if the transfer of the frame's peer is complete, has the expected
  -- digest and was moved to its place; the message is the one that the frame names.
  pub end_frame-IsMarked :
      (replaces : Bool) (pid file_id mid sha256 : String) (d : Desk)
      → IsMarked w hexdigest env replaces pid file_id mid
          (set_expected_digest file_id pid sha256 d.board)
          d.daemon.store
          (end_frame w hexdigest env replaces pid file_id mid sha256 d).daemon.store
  unfolding end_frame finalize_download
  end_frame-IsMarked replaces pid file_id mid sha256 d =
      dl_finish_cases file_id pid b hexdigest replaces true
        (λ o.
          P
            (finalize_download w hexdigest env o.0 mid file_id
              (record d { board = o.1 })).daemon.store)
        unmarked
        (λ e found peer.
          finalize_download-store P (close_entry hexdigest replaces true e b.files).0 mid file_id
            (record d {
              board = record b {
                dl = erase file_id b.dl;
                files = (close_entry hexdigest replaces true e b.files).1;
              };
            })
            unmarked (λ s. marked e found peer (saved-Passes hexdigest replaces true e b.files s)))
    where
      b : Board
      b = set_expected_digest file_id pid sha256 d.board

      P : Store → Type 0
      P = IsMarked w hexdigest env replaces pid file_id mid b d.daemon.store
