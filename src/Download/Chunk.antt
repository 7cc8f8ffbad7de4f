-- ===== src/Download/Chunk.antt =====
-- `_dl_chunk` and `_dl_abort_locked` of attachments.py.
use lan_chat.Base.{
  ℕ, zero, suc, ◌+◌, ◌-◌, String, Bool, true, false, not, ◌&&◌, Option, none, some, List, ltb, leb,
  ◌==◌, length, str_eq, if◌then◌else◌,
}
use lan_chat.Base.Int.{ℤ, pos, negsuc}
use lan_chat.Dict.{lookup, insert, erase}
use lan_chat.Files.{Handle, write, remove}
use lan_chat.Download.Types.{
  Entry, Abort, bad_total, over_per_file_cap, total_rewritten, over_budget, no_total, low_disk,
  Board, att_disk_check_interval_bytes, att_total_grace,
}
use lan_chat.Download.Reserve.{reserved_bytes_locked, fits_reservation}

-- What the machine answers during the call, in the order in which it is asked.
pub record ChunkEnv : Type 0 where
  pub grace_now : ℕ
  pub free_declared : Option ℕ
  pub now : ℕ
  pub free : Option ℕ
  pub writes : Bool

-- The tuple `(ok, total, written)`, and the table after the call.
pub record Received : Type 0 where
  pub ok : Bool
  pub total : ℕ
  pub written : ℕ
  pub board : Board

-- A check lets the transfer go on, or aborts it with the total to report.
pub data Verdict : Type 0 where
  abort : Abort → ℕ → Verdict
  proceed : Entry → Verdict

unfoldable pub dl_abort_locked : String → Entry → Board → Board
dl_abort_locked file_id d b = record b { dl = erase file_id b.dl; files = remove b.files d.tmp }

-- The checks on the total that the chunk carries; 0 is none.
unfoldable pub check_total : ChunkEnv → Board → Entry → ℤ → Verdict
unfolding fits_reservation
check_total env b d (negsuc n) = abort bad_total 0
check_total env b d (pos zero) =
    if d.total == 0 && ltb (d.ts + att_total_grace) env.grace_now
    then abort no_total 0
    else proceed d
check_total env b d (pos (suc n)) =
    let declared = suc n in
    let reserved = reserved_bytes_locked b.dl - d.written in
    if ltb d.cap declared
    then abort over_per_file_cap declared
    else if ltb 0 d.total && not (declared == d.total)
    then abort total_rewritten d.total
    else if d.total == 0
        && not (fits_reservation b.limits reserved declared env.free_declared (some d.cap))
    then abort over_budget declared
    else proceed (record d { total = declared })

-- The free-space floor, read again once enough bytes have been written.
unfoldable pub check_space : ChunkEnv → Board → Entry → ℕ → Verdict
check_space env b d len =
    if leb d.next_disk_check (d.written + len)
    then elim env.free [
      | none ↦ abort low_disk d.total
      | some free ↦
          if ltb free (b.limits.att_min_free_bytes + len)
          then abort low_disk d.total
          else proceed (record d { next_disk_check = d.written + att_disk_check_interval_bytes })
    ]
    else proceed d

abbrev pub aborted : String → Entry → ℕ → Board → Received
aborted file_id d reported b = record {
  ok = false;
  total = reported;
  written = d.written;
  board = dl_abort_locked file_id d b;
}

-- The entry once the chunk is written.
abbrev pub grown : ChunkEnv → Entry → Handle → List ℕ → Entry
grown env d fh raw = record d { fh = fh; written = d.written + length raw; ts = env.now }

-- The chunk is written and counted.
unfoldable pub append_raw : ChunkEnv → String → Entry → List ℕ → Board → Received
append_raw env file_id d raw b =
    let (fs, fh) = write b.files d.fh raw in
    let d' = grown env d fh raw in
    record {
      ok = true;
      total = d'.total;
      written = d'.written;
      board = record b { dl = insert file_id d' b.dl; files = fs };
    }

unfoldable pub write_raw : ChunkEnv → String → List ℕ → Board → Verdict → Entry → Received
unfolding append_raw
write_raw env file_id raw b (abort reason reported) d = aborted file_id d reported b
write_raw env file_id raw b (proceed d') d =
    if env.writes then append_raw env file_id d' raw b else aborted file_id d' d'.total b

-- From the decoding on; a chunk that does not decode leaves the transfer with its total.
unfoldable pub receive : ChunkEnv → String → Option (List ℕ) → Board → Entry → Received
unfolding check_space write_raw
receive env file_id none b d = record {
  ok = false;
  total = d.total;
  written = d.written;
  board = record b { dl = insert file_id d b.dl };
}
receive env file_id (some raw) b d =
    if ltb d.cap (d.written + length raw)
    then aborted file_id d d.total b
    else if ltb 0 d.total && ltb d.total (d.written + length raw)
    then aborted file_id d d.total b
    else write_raw env file_id raw b (check_space env b d (length raw)) d

unfoldable pub after_total :
    ChunkEnv → String → Option (List ℕ) → Board → Entry → Verdict → Received
unfolding receive
after_total env file_id raw b d (abort reason reported) = aborted file_id d reported b
after_total env file_id raw b d (proceed d') = receive env file_id raw b d'

abbrev pub ignored : Board → Received
ignored b = record { ok = false; total = 0; written = 0; board = b }

-- `raw` is what `base64.b64decode(data_b64)` returns, none where it raises.
unfoldable pub dl_chunk : ChunkEnv → String → String → Option (List ℕ) → ℤ → Board → Received
unfolding check_total after_total
dl_chunk env file_id peer_id raw declared b = elim (lookup file_id b.dl) [
  | none ↦ ignored b
  | some d ↦
      if str_eq d.peer peer_id
      then after_total env file_id raw b d (check_total env b d declared)
      else ignored b
]
