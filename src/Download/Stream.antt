-- ===== src/Download/Stream.antt =====
-- A sender that never declares a total, and the two rules that are meant to stop it.
use lan_chat.Base.{
  ℕ, ◌+◌, ◌≤◌, String, ◌≡◌, refl, ◌∙◌, true, false, some, List, [], ◌∷◌, arith, length, eq_iff, ltb,
  leb, if◌then◌else◌,
}
use lan_chat.Base.Int.{pos}
use lan_chat.Dict.{Dict, lookup, insert, lookup-insert_self}
use lan_chat.Dict.Sums.{total-insert}
use lan_chat.Files.{write}
use lan_chat.Download.Types.{Entry, Board, att_total_grace, att_disk_check_interval_bytes}
use lan_chat.Download.Reserve.{share, reserved_bytes_locked}
use lan_chat.Download.Chunk.{
  ChunkEnv, check_total, check_space, receive, write_raw, append_raw, proceed, grown, after_total,
  dl_chunk,
}

-- The frames of one sender, none of which carries a total.
unfoldable pub stream : String → String → List (ChunkEnv × List ℕ) → Board → Board
stream file_id peer_id [] b = b
stream file_id peer_id ((env, raw) ∷ cs) b =
    stream file_id peer_id cs (dl_chunk env file_id peer_id (some raw) (pos 0) b).board

abbrev pub stream_bytes : List (ChunkEnv × List ℕ) → ℕ
stream_bytes [] = 0
stream_bytes ((env, raw) ∷ cs) = length raw + stream_bytes cs

-- Each frame comes within the grace time of the one before, and the disk has room above the floor.
abbrev pub IsSteady : ℕ → ℕ → List (ChunkEnv × List ℕ) → Type 0
IsSteady floor last [] = Unit {0}
IsSteady floor last ((env, raw) ∷ cs) =
    (env.grace_now ≤ last + att_total_grace)
    × (env.writes ≡ true)
    × ((free : ℕ) × (env.free ≡ some free) × (floor + length raw ≤ free))
    × IsSteady floor env.now cs

-- The entry with its next probe, after the floor check has passed.
abbrev probed : Entry → ℕ → Entry
probed d len =
    if leb d.next_disk_check (d.written + len)
    then record d { next_disk_check = d.written + att_disk_check_interval_bytes }
    else d

check_space-probed :
    (env : ChunkEnv) (b : Board) (d : Entry) (len free : ℕ)
    → env.free ≡ some free
    → b.limits.att_min_free_bytes + len ≤ free
    → check_space env b d len ≡ proceed (probed d len)
unfolding check_space
check_space-probed env b d len free e h = ground arith

check_total-undeclared :
    (env : ChunkEnv) (b : Board) (d : Entry)
    → d.total ≡ 0
    → env.grace_now ≤ d.ts + att_total_grace
    → check_total env b d (pos 0) ≡ proceed d
unfolding check_total
check_total-undeclared env b d z g = ground arith

receive-undeclared :
    (env : ChunkEnv) (file_id : String) (raw : List ℕ) (b : Board) (d : Entry)
    → d.total ≡ 0
    → d.written + length raw ≤ d.cap
    → env.writes ≡ true
    → check_space env b d (length raw) ≡ proceed (probed d (length raw))
    → receive env file_id (some raw) b d ≡ append_raw env file_id (probed d (length raw)) raw b
unfolding receive
receive-undeclared env file_id raw b d z c w h =
    let in_cap : ltb d.cap (d.written + length raw) ≡ false = ground arith in
    let no_total : ltb 0 d.total ≡ false = ground arith in rw (in_cap, no_total, h, write_raw, w)

-- Such a frame is taken.
dl_chunk-undeclared :
    (env : ChunkEnv) (file_id peer_id : String) (raw : List ℕ) (b : Board) (d : Entry) (free : ℕ)
    → lookup file_id b.dl ≡ some d
    → d.peer ≡ peer_id
    → d.total ≡ 0
    → env.grace_now ≤ d.ts + att_total_grace
    → d.written + length raw ≤ d.cap
    → env.writes ≡ true
    → env.free ≡ some free
    → b.limits.att_min_free_bytes + length raw ≤ free
    → dl_chunk env file_id peer_id (some raw) (pos 0) b
      ≡ append_raw env file_id (probed d (length raw)) raw b
unfolding dl_chunk
dl_chunk-undeclared env file_id peer_id raw b d free e p z g c w f h =
    rw (e, dl_chunk, (eq_iff d.peer peer_id).1 p, check_total-undeclared env b d z g, after_total)
      (receive-undeclared env file_id raw b d z c w
        (check_space-probed env b d (length raw) free f h))

probed_fields :
    (d : Entry) (len : ℕ)
    → let d' = probed d len in
      (d'.total ≡ d.total) × (d'.written ≡ d.written) × (d'.cap ≡ d.cap) × (d'.peer ≡ d.peer)
probed_fields d len = ground arith

share-undeclared : (d : Entry) → d.total ≡ 0 → share d ≡ d.written
unfolding share
share-undeclared d z = ground arith

reserved-undeclared :
    (file_id : String) (d d' : Entry) (dl : Dict Entry)
    → lookup file_id dl ≡ some d
    → d.total ≡ 0
    → d'.total ≡ 0
    → reserved_bytes_locked (insert file_id d' dl) + d.written
      ≡ reserved_bytes_locked dl + d'.written
unfolding reserved_bytes_locked
reserved-undeclared file_id d d' dl e z z' =
    omega
      (arith, total-insert share file_id d' d dl e, share-undeclared d z, share-undeclared d' z')

module _ (env : ChunkEnv) (file_id : String) (d : Entry) (raw : List ℕ) (b : Board) where
  abbrev appended : Entry
  appended = grown env d (write b.files d.fh raw).1 raw

  append_raw-stored : lookup file_id (append_raw env file_id d raw b).board.dl ≡ some appended
  unfolding append_raw
  append_raw-stored = lookup-insert_self file_id appended b.dl

  append_raw-IsSteady :
      (cs : List (ChunkEnv × List ℕ)) (ts : ℕ)
      → IsSteady b.limits.att_min_free_bytes ts cs
      → IsSteady (append_raw env file_id d raw b).board.limits.att_min_free_bytes ts cs
  unfolding append_raw
  append_raw-IsSteady cs ts s = s

  append_raw-reserved :
      reserved_bytes_locked (append_raw env file_id d raw b).board.dl
      ≡ reserved_bytes_locked (insert file_id appended b.dl)
  unfolding append_raw
  append_raw-reserved = refl

-- A stream that never declares a total, and of which each frame comes within the grace time of the
-- one before, is taken whole as long as it stays under the ceiling of the transfer and the disk has
-- room: however long it lasts, since each frame starts the grace time anew, and whatever the
-- aggregate budget is, since the bytes of an undeclared transfer are never held against it. What the
-- table reserves grows by all its bytes.
pub stream_undeclared :
    (file_id peer_id : String) (cs : List (ChunkEnv × List ℕ)) (b : Board) (d : Entry)
    → lookup file_id b.dl ≡ some d
    → d.peer ≡ peer_id
    → d.total ≡ 0
    → d.written + stream_bytes cs ≤ d.cap
    → IsSteady b.limits.att_min_free_bytes d.ts cs
    → let b' = stream file_id peer_id cs b in
      (d' : Entry) × (lookup file_id b'.dl ≡ some d')
      × (d'.total ≡ 0)
      × (d'.written ≡ d.written + stream_bytes cs)
      × (reserved_bytes_locked b'.dl ≡ reserved_bytes_locked b.dl + stream_bytes cs)
unfolding stream
stream_undeclared file_id peer_id [] b d e p z c s = (d, e, z, omega arith, omega arith)
stream_undeclared file_id peer_id ((env, raw) ∷ cs) b d e p z c (g, w, (free, f, h), s) =
    let len = length raw in
    let after = grown env (probed d len) (write b.files (probed d len).fh raw).1 raw in
    let fields = probed_fields d len in
    let charged = reserved-undeclared file_id d after b.dl e z (fields.0 ∙ z) in
    let (d', e', z', n, r) =
      stream_undeclared file_id peer_id cs (append_raw env file_id (probed d len) raw b).board after
        (append_raw-stored env file_id (probed d len) raw b) (fields.3 ∙ p) (fields.0 ∙ z)
        (omega arith) (append_raw-IsSteady env file_id (probed d len) raw b cs env.now s) in
    rw (stream, dl_chunk-undeclared env file_id peer_id raw b d free e p z g (omega arith) w f h)
      (d', e', z', omega arith, omega (arith, append_raw-reserved env file_id (probed d len) raw b))
