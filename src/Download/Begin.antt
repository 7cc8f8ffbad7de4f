-- ===== src/Download/Begin.antt =====
-- `_dl_begin` of attachments.py.
use Prim.Native.String.{◌++◌}
use Prim.Native.Nat.{min}
use lan_chat.Base.{
  ℕ, ◌+◌, ◌-◌, String, Bool, true, false, not, Option, none, some, [], ◌∷◌, ltb, leb, length, keep,
  if◌then◌else◌,
}
use lan_chat.Base.Int.{ℤ, pos_part}
use lan_chat.Dict.{Dict, insert}
use lan_chat.Dict.Sums
use lan_chat.Files.{Files, Handle, open_wb, remove}
use lan_chat.Download.Types.{
  Limits, Entry, Refusal, per_peer, max_concurrent, disk_budget, file_cap, disk_unknown,
  open_failed, Board, att_disk_check_interval_bytes, att_max_concurrent, dl_ttl,
}
use lan_chat.Download.Reserve.{reserved_bytes_locked, from_peer, fits_reservation}

-- The arguments of the call.
pub record Request : Type 0 where
  pub file_id : String
  pub peer_id : String
  pub save_to : String
  pub sha256 : String
  pub mid : String
  pub room : String
  pub total : ℤ

-- What the machine answers during the call: the clock, whether the directory and the .part file can
-- be opened, and the free space that the probe reads.
pub record BeginEnv : Type 0 where
  pub now : ℕ
  pub opens : Bool
  pub free : Option ℕ

unfoldable pub is_stale : ℕ → String × Entry → Bool
is_stale now (fid, e) = ltb (e.ts + dl_ttl) now

-- The .part files of the entries that pass the test are removed.
unfoldable pub remove_parts : (String × Entry → Bool) → Dict Entry → Files → Files
remove_parts test [] fs = fs
remove_parts test ((fid, e) ∷ dl) fs =
    remove_parts test dl (if test (fid, e) then remove fs e.tmp else fs)

-- Stale transfers go first.
unfoldable pub purge : ℕ → Board → Board
unfolding is_stale remove_parts
purge now b = record b {
  dl = keep (λ e. not (is_stale now e)) b.dl;
  files = remove_parts (is_stale now) b.dl b.files;
}

-- The capacity decisions, in the order of the code; none lets the transfer in.
unfoldable pub capacity_refusal : Limits → ℕ → ℕ → Option ℕ → Option Refusal
unfolding fits_reservation
capacity_refusal l reserved total none = some disk_unknown
capacity_refusal l reserved total (some free) =
    let cap = l.att_max_bytes in
    if ltb 0 total
    then if ltb cap total
      then some file_cap
      else if fits_reservation l reserved total (some free) (some cap)
      then none
      else some disk_budget
    else if fits_reservation l reserved (min cap (free - l.att_min_free_bytes)) (some free)
        (some cap)
    then none
    else some disk_budget

unfoldable pub part_of : String → String
part_of save_to = save_to ++ ".part"

abbrev pub new_entry : BeginEnv → Request → Limits → Handle → Entry
new_entry env r l fh = record {
  save_to = r.save_to;
  tmp = part_of r.save_to;
  fh = fh;
  mid = r.mid;
  sha256 = r.sha256;
  total = pos_part r.total;
  written = 0;
  peer = r.peer_id;
  ts = env.now;
  room = r.room;
  cap = l.att_max_bytes;
  next_disk_check = att_disk_check_interval_bytes;
}

abbrev pub refused : Refusal → Files → Board → Bool × Board
refused reason fs b = (false, record b { last_refusal_reason = some reason; files = fs })

abbrev pub accepted : BeginEnv → Request → Files → Handle → Board → Bool × Board
accepted env r fs fh b = (
  true,
  record b {
    dl = insert r.file_id (new_entry env r b.limits fh) b.dl;
    last_dl_peer = insert r.file_id r.peer_id b.last_dl_peer;
    last_refusal_reason = none;
    files = fs;
  },
)

-- From the open on: the .part file is there, and a refusal removes it again.
unfoldable pub open_part : BeginEnv → Request → Board → Bool × Board
unfolding capacity_refusal
open_part env r b =
    let tmp = part_of r.save_to in
    let (fs, fh) = open_wb b.files tmp in
    elim (capacity_refusal b.limits (reserved_bytes_locked b.dl) (pos_part r.total) env.free) [
      | some reason ↦ refused reason (remove fs tmp) b
      | none ↦ accepted env r fs fh b
    ]

-- After the purge: the slot counts, then the open.
unfoldable pub admit : BeginEnv → Request → Board → Bool × Board
unfolding open_part
admit env r b =
    if leb b.limits.att_max_per_peer (Sums.total (from_peer r.peer_id) b.dl)
    then refused per_peer b.files b
    else if leb att_max_concurrent (length b.dl)
    then refused max_concurrent b.files b
    else if env.opens
    then open_part env r b
    else refused open_failed (remove b.files (part_of r.save_to)) b

unfoldable pub dl_begin : BeginEnv → Request → Board → Bool × Board
unfolding purge admit
dl_begin env r b = admit env r (purge env.now b)
