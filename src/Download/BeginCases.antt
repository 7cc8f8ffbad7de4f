-- ===== src/Download/BeginCases.antt =====
-- The ways in which `_dl_begin` can leave the table, as a rule for the proofs about it.
use lan_chat.Base.{
  ℕ, ◌+◌, ◌≤◌, ◌<◌, ◌≡◌, refl, ◌⊎◌, inl, inr, Bool, true, Option, none, some, arith, length,
  Bool-cases, leb,
}
use lan_chat.Base.Int.{pos_part}
use lan_chat.Files.{Files, open_wb, read}
use lan_chat.Files.Laws.{read-remove}
use lan_chat.Download.Types.{
  Board, Limits, Refusal, per_peer, max_concurrent, open_failed, att_max_concurrent,
}
use lan_chat.Download.Reserve.{reserved_bytes_locked, from_peer}
use lan_chat.Dict.Sums
use lan_chat.Download.Begin.{
  BeginEnv, Request, dl_begin, admit, open_part, purge, capacity_refusal, part_of, accepted,
  refused,
}

-- What a table and a request satisfy when the transfer is let in.
pub record Admits (env : BeginEnv) (r : Request) (b : Board) : Type 0 where
  pub slots : Sums.total (from_peer r.peer_id) b.dl < b.limits.att_max_per_peer
  pub concurrent : length b.dl < att_max_concurrent
  pub opens : env.opens ≡ true
  pub ceiling : pos_part r.total ≤ b.limits.att_max_bytes
  pub budget : reserved_bytes_locked b.dl + pos_part r.total ≤ b.limits.att_max_reserved_bytes
  pub floor :
      (free : ℕ) × (env.free ≡ some free) × (pos_part r.total + b.limits.att_min_free_bytes ≤ free)

pub record HasCapacity (l : Limits) (reserved total : ℕ) (free : Option ℕ) : Type 0 where
  pub ceiling : total ≤ l.att_max_bytes
  pub budget : reserved + total ≤ l.att_max_reserved_bytes
  pub floor : (f : ℕ) × (free ≡ some f) × (total + l.att_min_free_bytes ≤ f)

pub capacity_refusal-HasCapacity :
    (l : Limits) (reserved total : ℕ) (free : Option ℕ)
    → capacity_refusal l reserved total free ≡ none
    → HasCapacity l reserved total free
unfolding capacity_refusal
capacity_refusal-HasCapacity l reserved total none h = cc
capacity_refusal-HasCapacity l reserved total (some f) h = record {
  ceiling = ground arith;
  budget = ground arith;
  floor = (f, refl, ground arith);
}

-- What a refusal leaves on the disk: a busy refusal comes before the open, and any other leaves no
-- .part file.
abbrev pub LeavesNoPart : Request → Board → Refusal → Files → Type 0
LeavesNoPart r b reason fs =
    (((reason ≡ per_peer) ⊎ (reason ≡ max_concurrent)) × (fs ≡ b.files))
    ⊎ (read fs (part_of r.save_to) ≡ none)

-- A property of the outcome holds if it holds of every refusal and of the accepted transfer, both
-- over the purged table.
module _ (env : BeginEnv) (r : Request) (b : Board) (P : Bool × Board → Type 0) where
  pub dl_begin_cases :
      ((reason : Refusal) (fs : Files)
        → LeavesNoPart r (purge env.now b) reason fs
        → P (refused reason fs (purge env.now b)))
      → (Admits env r (purge env.now b)
          → let (fs, fh) = open_wb (purge env.now b).files (part_of r.save_to) in
            P (accepted env r fs fh (purge env.now b)))
      → P (dl_begin env r b)
  unfolding dl_begin
  dl_begin_cases refuse accept = slots (purge env.now b) refuse accept
    where
      capacity :
          (c : Board) (reason : Option Refusal)
          → capacity_refusal c.limits (reserved_bytes_locked c.dl) (pos_part r.total) env.free
            ≡ reason
          → Sums.total (from_peer r.peer_id) c.dl < c.limits.att_max_per_peer
          → length c.dl < att_max_concurrent
          → env.opens ≡ true
          → ((reason : Refusal) (fs : Files) → LeavesNoPart r c reason fs → P (refused reason fs c))
          → (Admits env r c
              → let (fs, fh) = open_wb c.files (part_of r.save_to) in P (accepted env r fs fh c))
          → P (open_part env r c)
      capacity c none e s k o refuse accept =
          let h = capacity_refusal-HasCapacity c.limits _ _ env.free e in
          rw (e, open_part)
            (accept (record {
              slots = s;
              concurrent = k;
              opens = o;
              ceiling = h.ceiling;
              budget = h.budget;
              floor = h.floor;
            }))
      capacity c (some reason) e s k o refuse accept =
          rw (e, open_part) (refuse reason _ (inr (read-remove _ (part_of r.save_to))))

      slots :
          (c : Board)
          → ((reason : Refusal) (fs : Files) → LeavesNoPart r c reason fs → P (refused reason fs c))
          → (Admits env r c
              → let (fs, fh) = open_wb c.files (part_of r.save_to) in P (accepted env r fs fh c))
          → P (admit env r c)
      slots c refuse accept =
          elim (Bool-cases
            (leb c.limits.att_max_per_peer (Sums.total (from_peer r.peer_id) c.dl))) [
              | inl busy ↦ rw (busy, admit) (refuse per_peer _ (inl (inl refl, refl)))
              | inr free ↦ elim (Bool-cases (leb att_max_concurrent (length c.dl))) [
                | inl full ↦ rw (free, full, admit) (refuse max_concurrent _ (inl (inr refl, refl)))
                | inr place ↦ elim (Bool-cases env.opens) [
                  | inl opens ↦
                      rw (free, place, opens, admit)
                        (capacity c _ refl (ground arith) (ground arith) opens refuse accept)
                  | inr shut ↦
                      rw (free, place, shut, admit)
                        (refuse open_failed _ (inr (read-remove _ (part_of r.save_to))))
                ]
              ]
            ]
