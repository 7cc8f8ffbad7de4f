-- ===== src/Download/Finish.antt =====
-- `_dl_finish`, `set_expected_digest` and `_dl_peer` of attachments.py. SHA-256 is a parameter: a
-- function from bytes to a hexadecimal text.
use lan_chat.Base.{
  ℕ, String, Bool, not, ◌&&◌, Option, none, some, List, ltb, ◌==◌, str_eq, if◌then◌else◌,
}
use lan_chat.Dict.{lookup, insert, erase}
use lan_chat.Files.{Files, read, remove, replace}
use lan_chat.Download.Types.{Entry, Board}

pub data Status : Type 0 where
  saved mismatch incomplete aborted : Status

-- The tuple `(status, save_to, mid, total, room)`.
pub record Outcome : Type 0 where
  pub status : Status
  pub save_to : String
  pub mid : String
  pub total : ℕ
  pub room : String

abbrev pub outcome : Status → Entry → Outcome
outcome status d = record {
  status = status;
  save_to = d.save_to;
  mid = d.mid;
  total = d.total;
  room = d.room;
}

unfoldable pub set_expected_digest : String → String → String → Board → Board
set_expected_digest file_id peer_id digest b =
    if str_eq digest "" then b else elim (lookup file_id b.dl) [
      | none ↦ b
      | some d ↦
          if str_eq d.peer peer_id && str_eq d.sha256 ""
          then record b { dl = insert file_id (record d { sha256 = digest }) b.dl }
          else b
    ]

unfoldable pub dl_peer : String → Board → String
dl_peer file_id b = elim (lookup file_id b.last_dl_peer) [ none ↦ "" | some p ↦ p ]

module _ (hexdigest : List ℕ → String) where
  -- The empty text stands for a file that cannot be read.
  unfoldable pub file_sha256 : Files → String → String
  file_sha256 fs path = elim (read fs path) [ none ↦ "" | some bytes ↦ hexdigest bytes ]

  -- The entry is gone from the table: its .part file is checked, and moved or removed.
  -- `replaces` is false where the system refuses the rename.
  unfoldable pub close_entry : Bool → Bool → Entry → Files → Outcome × Files
  unfolding file_sha256
  close_entry replaces ok d fs =
      if not ok
      then (outcome aborted d, remove fs d.tmp)
      else if ltb 0 d.total && not (d.written == d.total)
      then (outcome incomplete d, remove fs d.tmp)
      else if not (str_eq d.sha256 "") && not (str_eq (file_sha256 fs d.tmp) d.sha256)
      then (outcome mismatch d, remove fs d.tmp)
      else if not replaces
      then (outcome aborted d, remove fs d.tmp)
      else elim (replace fs d.tmp d.save_to) [
        | none ↦ (outcome aborted d, remove fs d.tmp)
        | some fs' ↦ (outcome saved d, fs')
      ]

  unfoldable pub dl_finish : Bool → String → String → Bool → Board → Option Outcome × Board
  unfolding close_entry
  dl_finish replaces file_id peer_id ok b = elim (lookup file_id b.dl) [
    | none ↦ (none, b)
    | some d ↦
        if str_eq d.peer peer_id
        then (let (o, fs) = close_entry replaces ok d b.files in
            (some o, record b { dl = erase file_id b.dl; files = fs }))
        else (none, b)
  ]
