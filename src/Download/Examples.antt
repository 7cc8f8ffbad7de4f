-- ===== src/Download/Examples.antt =====
-- Concrete transfers: tests of the definitions, and each theorem at an input that meets its
-- hypotheses.
use mathlib.Core.Option
use lan_chat.Base.{
  ℕ, ◌+◌, ◌*◌, ◌≤◌, String, ◌≡◌, refl, inl, inr, true, Option, none, some, List, [], ◌∷◌, arith,
  eq_iff,
}
use lan_chat.Base.Int.{pos}
use lan_chat.Dict.{lookup, insert}
use lan_chat.Files.{open_wb, write, read}
use lan_chat.Download.Types.{Entry, Board, default_limits, empty_board, mib, gib}
use lan_chat.Download.Limits.{number, other, apply_config_limits, IsSane}
use lan_chat.Download.Limits.Range.{apply_config_limits-IsSane}
use lan_chat.Download.Reserve.{share, reserved_bytes_locked, from_peer}
use lan_chat.Download.Begin.{BeginEnv, Request, part_of, purge, dl_begin}
use lan_chat.Download.Chunk.{ChunkEnv, dl_chunk}
use lan_chat.Download.Finish.{Outcome, saved, dl_finish}
use lan_chat.Download.Run.{Call, begins, chunks, step, run}
use lan_chat.Download.Ceiling.{IsLetInBy, run-IsLetInBy}
use lan_chat.Download.Budget.{InBudget, run-InBudget}
use lan_chat.Download.Outcomes.{IsClosed, dl_finish-IsClosed}
use lan_chat.Download.Stream.{IsSteady, stream, stream_undeclared}
use lan_chat.Download.Clash.{IsClobbered, dl_begin-IsClobbered}
use lan_chat.Download.Transfer.{feed, transfer_saves}

abbrev digest_of : List ℕ → String
digest_of bytes = "d0"

abbrev request : String → String → ℕ → Request
request file_id peer_id total = record {
  file_id = file_id;
  peer_id = peer_id;
  save_to = "/home/me/photo.jpg";
  sha256 = "";
  mid = "m1";
  room = "";
  total = pos total;
}

abbrev healthy : ℕ → BeginEnv
healthy now = record { now = now; opens = true; free = some (100 * gib) }

abbrev at : ℕ → ChunkEnv
at now = record {
  grace_now = now;
  free_declared = some (100 * gib);
  now = now;
  free = some (100 * gib);
  writes = true;
}

abbrev entry : Entry
entry = record {
  save_to = "/home/me/photo.jpg";
  tmp = "/home/me/photo.jpg.part";
  fh = record { inode = 0; pos = 0 };
  mid = "m1";
  sha256 = "";
  total = 0;
  written = 0;
  peer = "ann";
  ts = 0;
  room = "";
  cap = 4 * gib;
  next_disk_check = 8 * mib;
}

-- One transfer from "ann" that has just begun.
abbrev begun : Board
begun = record {
  limits = default_limits;
  dl = ("f1", entry) ∷ [];
  last_dl_peer = ("f1", "ann") ∷ [];
  last_refusal_reason = none;
  files = record { names = ("/home/me/photo.jpg.part", 0) ∷ []; next = 1; content = λ _. [] };
}

abbrev history : List Call
history =
    begins (healthy 0) (request "f1" "ann" 3)
    ∷ chunks (at 5) "f1" "ann" (some (1 ∷ 2 ∷ [])) (pos 3)
    ∷ chunks (at 6) "f1" "bob" (some (9 ∷ [])) (pos 3)
    ∷ chunks (at 7) "f1" "ann" (some (3 ∷ [])) (pos 3)
    ∷ []

-- The history runs: three bytes are there, and the frame from "bob" left no trace.
history_content :
    read (run digest_of history (empty_board default_limits)).files "/home/me/photo.jpg.part"
    ≡ some (1 ∷ 2 ∷ 3 ∷ [])
unfolding run step dl_begin dl_chunk read share reserved_bytes_locked from_peer lookup insert
    open_wb write part_of
history_content = refl

-- The transfer of the history, three bytes later.
abbrev grown_entry : Entry
grown_entry = record entry { fh = record { inode = 0; pos = 3 }; total = 3; written = 3; ts = 7 }

history_entry :
    lookup "f1" (run digest_of history (empty_board default_limits)).dl ≡ some grown_entry
unfolding run step dl_begin dl_chunk share reserved_bytes_locked from_peer lookup insert open_wb
    write part_of
history_entry = refl

run-IsLetInBy_example :
    (x : IsLetInBy digest_of history (empty_board default_limits) "f1" grown_entry) × (3
      ≤ (run digest_of x.before (empty_board default_limits)).limits.att_max_bytes)
    × (3 ≤ (run digest_of x.before (empty_board default_limits)).limits.att_max_bytes)
run-IsLetInBy_example =
    run-IsLetInBy digest_of history default_limits "f1" grown_entry history_entry

run-InBudget_example : InBudget (run digest_of history (empty_board default_limits))
run-InBudget_example =
    run-InBudget digest_of history (empty_board default_limits) (refl, (refl, (refl, (refl, tt))))
      (omega arith)

apply_config_limits-IsSane_example : IsSane (
    apply_config_limits
      (("attachmentMaxBytes", number (pos (16 * gib))) ∷ ("attachmentMaxPerPeer", other) ∷ [])
      default_limits)
apply_config_limits-IsSane_example =
    apply_config_limits-IsSane
      (("attachmentMaxBytes", number (pos (16 * gib))) ∷ ("attachmentMaxPerPeer", other) ∷ [])
      default_limits
      (record {
        bytes_min = omega arith;
        bytes_max = omega arith;
        reserved_max = omega arith;
        free_min = omega arith;
        free_max = omega arith;
        slots_min = omega arith;
        slots_max = omega arith;
      })

dl_finish-IsClosed_example :
    let (o, b') = dl_finish digest_of true "f1" "ann" true begun in
    IsClosed digest_of true true "f1" entry begun o b'
unfolding lookup
dl_finish-IsClosed_example =
    dl_finish-IsClosed digest_of true true "f1" "ann" begun entry refl refl
      (ground (arith, eq_iff "/home/me/photo.jpg.part" "/home/me/photo.jpg"))

abbrev slow_frames : List (ChunkEnv × List ℕ)
slow_frames = (at 9_000, 1 ∷ 2 ∷ []) ∷ (at 18_000, 3 ∷ []) ∷ (at 27_000, 4 ∷ []) ∷ []

-- 27 seconds without a total, against a grace time of ten.
stream_undeclared_example :
    let b' = stream "f1" "ann" slow_frames begun in
    (d' : Entry) × (lookup "f1" b'.dl ≡ some d')
    × (d'.total ≡ 0)
    × (d'.written ≡ 4)
    × (reserved_bytes_locked b'.dl ≡ reserved_bytes_locked begun.dl + 4)
unfolding lookup
stream_undeclared_example =
    stream_undeclared "f1" "ann" slow_frames begun entry refl refl refl (omega arith) steady
  where
    room : (free : ℕ) × (◌≡◌ {A = Option ℕ} (some (100 * gib)) (some free)) × (4 * gib + 2 ≤ free)
    room = (100 * gib, refl, omega arith)

    little : (free : ℕ) × (◌≡◌ {A = Option ℕ} (some (100 * gib)) (some free)) × (4 * gib + 1 ≤ free)
    little = (100 * gib, refl, omega arith)

    steady : IsSteady (4 * gib) 0 slow_frames
    steady = (omega arith, refl, room, (omega arith, refl, little, (omega arith, refl, little, tt)))

dl_begin-IsClobbered_example :
    IsClobbered "f1" entry
      (request "f2" "bob" 3)
      (dl_begin (healthy 1) (request "f2" "bob" 3) begun).1
unfolding lookup purge dl_begin part_of reserved_bytes_locked share from_peer
dl_begin-IsClobbered_example =
    dl_begin-IsClobbered (healthy 1) (request "f2" "bob" 3) begun "f1" entry refl
      (ground (arith, eq_iff "f2" "f1")) refl refl refl

abbrev two_frames : List (ChunkEnv × List ℕ)
two_frames = (at 5, 1 ∷ 2 ∷ []) ∷ (at 6, 3 ∷ []) ∷ []

abbrev fed_board : Board
fed_board =
    elim (feed (request "f1" "ann" 3) (pos 3) two_frames
      (dl_begin (healthy 0) (request "f1" "ann" 3) (empty_board default_limits)).1) [
        | none ↦ begun
        | some b ↦ b
      ]

transfer_saves_example :
    let (o, b'') = dl_finish digest_of true "f1" "ann" true fed_board in
    (Option.map (λ (x : Outcome). x.status) o ≡ some saved)
    × (read b''.files "/home/me/photo.jpg" ≡ some (1 ∷ 2 ∷ 3 ∷ []))
unfolding feed dl_begin dl_chunk lookup insert reserved_bytes_locked share from_peer open_wb write
    part_of
transfer_saves_example =
    transfer_saves digest_of (healthy 0) (request "f1" "ann" 3) (pos 3) two_frames
      (empty_board default_limits) fed_board refl refl refl (inr refl) (inl refl)
      (ground (arith, eq_iff "/home/me/photo.jpg.part" "/home/me/photo.jpg"))
