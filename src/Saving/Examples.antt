-- ===== src/Saving/Examples.antt =====
-- Tests of saving: names, a file that a friend offers, and the end of its transfer.
use lan_chat.Base.{ℕ, ◌*◌, String, ◌≡◌, ◌⊎◌, refl, true, some, List, [], ◌∷◌}
use lan_chat.Dict.{lookup}
use lan_chat.Download.Types.{empty_board, default_limits, gib}
use lan_chat.Download.Begin.{BeginEnv}
use lan_chat.Download.Finish.{set_expected_digest}
use lan_chat.Download.Reserve.{reserved_bytes_locked}
use lan_chat.Friends.Ledger.{is_listed}
use lan_chat.Friends.Sample.{world, env, daemon}
use lan_chat.Saving.Name.{safe_filename}
use lan_chat.Saving.Safe.{IsSafe, safe_filename-IsSafe}
use lan_chat.Saving.Desk.{Desk, Save, asked, accept_attachment, end_frame}
use lan_chat.Saving.Asked.{IsAnswered, accept_attachment-IsAnswered}
use lan_chat.Saving.Marked.{IsMarked, end_frame-IsMarked}

climb_runs : safe_filename (λ c. true) "../..\\etc/ .passwd. " ≡ "passwd"
unfolding safe_filename
climb_runs = refl

safe_filename-IsSafe_example :
    (safe_filename (λ c. true) "../..\\etc/ .passwd. " ≡ "download")
    ⊎ IsSafe (λ c. true) (safe_filename (λ c. true) "../..\\etc/ .passwd. ")
safe_filename-IsSafe_example = safe_filename-IsSafe (λ c. true) "../..\\etc/ .passwd. "

abbrev digest_of : List ℕ → String
digest_of bytes = "d0"

abbrev desk : Desk
desk = record {
  daemon = record daemon {
    peers =
        (
          "carl",
          record { id = "carl"; name = "Carl"; address = "10.0.0.3"; port = 1; last_seen = 0 },
        )
        ∷ [];
  };
  board = empty_board default_limits;
}

abbrev healthy : BeginEnv
healthy = record { now = 5; opens = true; free = some (100 * gib) }

abbrev photo : Save
photo = record {
  from = "carl";
  room = "r1";
  file_id = "f1";
  name = "photo.jpg";
  mid = "m1";
  sha256 = "";
}

asked_runs : (accept_attachment world digest_of env healthy "/home/me" photo desk).0 ≡ asked
unfolding accept_attachment lookup is_listed reserved_bytes_locked
asked_runs = refl

accept_attachment-IsAnswered_example :
    IsAnswered world env healthy "/home/me" photo desk
      (accept_attachment world digest_of env healthy "/home/me" photo desk).1
      (accept_attachment world digest_of env healthy "/home/me" photo desk).0
accept_attachment-IsAnswered_example =
    accept_attachment-IsAnswered world digest_of env healthy "/home/me" photo desk

abbrev open_desk : Desk
open_desk = (accept_attachment world digest_of env healthy "/home/me" photo desk).1

end_frame-IsMarked_example :
    IsMarked world digest_of env true "carl" "f1" "m1"
      (set_expected_digest "f1" "carl" "d0" open_desk.board)
      open_desk.daemon.store
      (end_frame world digest_of env true "carl" "f1" "m1" "d0" open_desk).daemon.store
end_frame-IsMarked_example =
    end_frame-IsMarked world digest_of env true "carl" "f1" "m1" "d0" open_desk
