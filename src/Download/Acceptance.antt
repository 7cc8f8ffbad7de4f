-- ===== src/Download/Acceptance.antt =====
-- What is certain of a transfer that was let in, of one that was refused, and of a chunk that was
-- taken.
use lan_chat.Base.{
  ℕ, ◌+◌, ◌≤◌, ◌<◌, String, ◌≡◌, ◌≢◌, refl, ◌⊎◌, true, false, Option, some, List, [], arith, length,
}
use lan_chat.Base.Int.{ℤ, pos_part}
use lan_chat.Dict.{lookup, lookup-insert_self, lookup-insert_ne}
use lan_chat.Files.{read, write, open_wb}
use lan_chat.Files.Laws.{read-open_wb}
use lan_chat.Download.Types.{Entry, Board, Refusal}
use lan_chat.Download.Begin.{BeginEnv, Request, part_of, purge, new_entry, dl_begin}
use lan_chat.Download.Chunk.{ChunkEnv, Received, append_raw, grown, dl_chunk}
use lan_chat.Download.BeginCases.{Admits, LeavesNoPart, dl_begin_cases}
use lan_chat.Download.ChunkCases.{dl_chunk_cases}

-- An accepted chunk of a transfer `d`, which it leaves as `d'`.
pub record IsTaken (env : ChunkEnv) (file_id peer_id : String) (raw : Option (List ℕ)) (b : Board)
    (o : Received) : Type 0 where
  pub before : Entry
  pub after : Entry
  pub bytes : List ℕ
  pub found : lookup file_id b.dl ≡ some before
  pub own : before.peer ≡ peer_id
  pub decoded : raw ≡ some bytes
  pub stored : lookup file_id o.board.dl ≡ some after
  pub counted : after.written ≡ before.written + length bytes
  pub in_cap : after.written ≤ before.cap
  pub in_total : (after.total ≡ 0) ⊎ (after.written ≤ after.total)
  pub same_total : (before.total ≡ 0) ⊎ (after.total ≡ before.total)
  pub floor :
      (after.written < after.next_disk_check)
      ⊎ ((free : ℕ) × (env.free ≡ some free) × (b.limits.att_min_free_bytes + length bytes ≤ free))
  pub reported : (o.total ≡ after.total) × (o.written ≡ after.written)

-- A chunk is taken only from the peer of the transfer; it adds its bytes and no more, stays within
-- the ceiling and the declared total, never changes a total that was declared, and either the next
-- probe of the disk is still ahead or the probe has just shown that the floor stands after the write.
pub dl_chunk-IsTaken :
    (env : ChunkEnv) (file_id peer_id : String) (raw : Option (List ℕ)) (z : ℤ) (b : Board)
    → (dl_chunk env file_id peer_id raw z b).ok ≡ true
    → IsTaken env file_id peer_id raw b (dl_chunk env file_id peer_id raw z b)
unfolding append_raw
dl_chunk-IsTaken env file_id peer_id raw z b =
    dl_chunk_cases env file_id peer_id b (λ o. o.ok ≡ true → IsTaken env file_id peer_id raw b o)
      raw z (λ h. cc) (λ d d' n w e p t h. cc) (λ d d' e p c h. cc)
      λ d d' d'' bytes e p r c a h. record {
        before = d;
        after = grown env d'' (write b.files d''.fh bytes).1 bytes;
        bytes = bytes;
        found = e;
        own = p;
        decoded = r;
        stored = lookup-insert_self file_id _ b.dl;
        counted = ground (arith, c.same, a.room.same);
        in_cap = ground (arith, c.same, a.room.same, a.in_cap);
        in_total = ground (arith, c.same, a.room.same, a.in_total);
        same_total = ground (arith, c.same, c.charge, a.room.same);
        floor = ground (arith, c.same, a.room.same, a.room.floor);
        reported = (refl, refl);
      }

-- A transfer that is let in had a free slot, fits the ceiling, the aggregate budget and the disk with
-- its declared total, and starts empty under the ceiling of the moment; nothing else was touched but
-- by the purge.
pub record IsLetIn (env : BeginEnv) (r : Request) (b b' : Board) : Type 0 where
  pub admits : Admits env r (purge env.now b)
  pub entry : Entry
  pub stored : lookup r.file_id b'.dl ≡ some entry
  pub total : entry.total ≡ pos_part r.total
  pub written : entry.written ≡ 0
  pub cap : entry.cap ≡ b.limits.att_max_bytes
  pub peer : entry.peer ≡ r.peer_id
  pub others : (j : String) → r.file_id ≢ j → lookup j b'.dl ≡ lookup j (purge env.now b).dl
  pub part : read b'.files (part_of r.save_to) ≡ some []
  pub limits : b'.limits ≡ b.limits

pub dl_begin-IsLetIn :
    (env : BeginEnv) (r : Request) (b : Board)
    → (dl_begin env r b).0 ≡ true
    → IsLetIn env r b (dl_begin env r b).1
unfolding purge
dl_begin-IsLetIn env r b =
    dl_begin_cases env r b (λ o. o.0 ≡ true → IsLetIn env r b o.1) (λ reason fs k h. cc)
      λ a h. record {
        admits = a;
        entry = new_entry env r b.limits (open_wb (purge env.now b).files (part_of r.save_to)).1;
        stored = lookup-insert_self r.file_id _ (purge env.now b).dl;
        total = refl;
        written = refl;
        cap = refl;
        peer = refl;
        others = λ j n. lookup-insert_ne r.file_id j _ (purge env.now b).dl n;
        part = read-open_wb (purge env.now b).files (part_of r.save_to);
        limits = refl;
      }

-- A refused transfer is not in the table, which is as the purge left it; the reason is recorded, and
-- unless the refusal was for want of a slot, before anything was opened, no .part file is left.
pub record IsTurnedAway (env : BeginEnv) (r : Request) (b b' : Board) : Type 0 where
  pub reason : Refusal
  pub recorded : b'.last_refusal_reason ≡ some reason
  pub table : b'.dl ≡ (purge env.now b).dl
  pub limits : b'.limits ≡ b.limits
  pub no_part : LeavesNoPart r (purge env.now b) reason b'.files

pub dl_begin-IsTurnedAway :
    (env : BeginEnv) (r : Request) (b : Board)
    → (dl_begin env r b).0 ≡ false
    → IsTurnedAway env r b (dl_begin env r b).1
unfolding purge
dl_begin-IsTurnedAway env r b =
    dl_begin_cases env r b (λ o. o.0 ≡ false → IsTurnedAway env r b o.1)
      (λ reason fs k h. record {
        reason = reason;
        recorded = refl;
        table = refl;
        limits = refl;
        no_part = k;
      })
      λ a h. cc
