-- ===== src/Download/Bounds.antt =====
-- Each transfer and the ceiling that it was accepted under.
use lan_chat.Base.{ℕ, ◌+◌, ◌≤◌, String, ◌≡◌, Option, some, List, arith, length}
use lan_chat.Dict.{lookup}
use lan_chat.Dict.Sums.{
  AllValues, AllValues-insert, AllValues-erase, AllValues-keep, AllValues-lookup,
}
use lan_chat.Download.Types.{Entry, Board}
use lan_chat.Files.{Handle}
use lan_chat.Base.Int.{ℤ}
use lan_chat.Download.Begin.{BeginEnv, Request, purge, dl_begin}
use lan_chat.Download.Chunk.{ChunkEnv, dl_abort_locked, append_raw, dl_chunk}
use lan_chat.Download.Finish.{set_expected_digest}
use lan_chat.Download.BeginCases.{dl_begin_cases}
use lan_chat.Download.ChunkCases.{Declares, Accepts, dl_chunk_cases}
use lan_chat.Download.FinishCases.{dl_finish_cases, set_expected_digest_cases}
use lan_chat.Download.Run.{
  Call, begins, chunks, digests, finishes, configures, step, run, run_keeps,
}

-- The bytes written and the declared total stay under the ceiling of the transfer.
pub record IsCapped (d : Entry) : Type 0 where
  pub written_cap : d.written ≤ d.cap
  pub total_cap : d.total ≤ d.cap

abbrev pub AllCapped : Board → Type 0
AllCapped b = AllValues IsCapped b.dl

Declares-IsCapped :
    {b : Board} {z : ℤ} {d d' : Entry} → Declares b z d d' → IsCapped d → IsCapped d'
Declares-IsCapped c h = ground (arith, c.same, c.charge)

begin-AllCapped :
    (env : BeginEnv) (r : Request) (b : Board) → AllCapped b → AllCapped (dl_begin env r b).1
begin-AllCapped env r b h =
    dl_begin_cases env r b (λ o. AllCapped o.1) (λ reason fs k. purged)
      λ a.
        AllValues-insert IsCapped r.file_id _ (purge env.now b).dl
          (record { written_cap = omega arith; total_cap = a.ceiling }) purged
  where
    purged : AllCapped (purge env.now b)
    purged = unfold purge in AllValues-keep IsCapped _ b.dl h

chunk-AllCapped :
    (env : ChunkEnv) (file_id peer_id : String) (raw : Option (List ℕ)) (z : ℤ) (b : Board)
    → AllCapped b
    → AllCapped (dl_chunk env file_id peer_id raw z b).board
unfolding dl_abort_locked append_raw
chunk-AllCapped env file_id peer_id raw z b h =
    dl_chunk_cases env file_id peer_id b (λ o. AllCapped o.board) raw z h
      (λ d d' n w e p t. AllValues-erase IsCapped file_id b.dl h)
      (λ d d' e p c. AllValues-insert IsCapped file_id d' b.dl (Declares-IsCapped c (at d e)) h)
      λ d d' d'' bytes e p r c a.
        AllValues-insert IsCapped file_id _ b.dl
          (appended d' d'' bytes _ _ a (Declares-IsCapped c (at d e))) h
  where
    at : (d : Entry) → lookup file_id b.dl ≡ some d → IsCapped d
    at d e = AllValues-lookup IsCapped file_id d b.dl h e

    appended :
        (d d' : Entry) (bytes : List ℕ) (fh : Handle) (ts : ℕ)
        → Accepts env b d d' bytes
        → IsCapped d
        → IsCapped (record d' { fh = fh; written = d'.written + length bytes; ts = ts })
    appended d d' bytes fh ts a k = ground (arith, a.room.same, a.in_cap, k.total_cap)

digest-AllCapped :
    (file_id peer_id digest : String) (b : Board)
    → AllCapped b
    → AllCapped (set_expected_digest file_id peer_id digest b)
digest-AllCapped file_id peer_id digest b h =
    set_expected_digest_cases file_id peer_id b digest AllCapped h λ d e p s.
      let k = AllValues-lookup IsCapped file_id d b.dl h e in
      AllValues-insert IsCapped file_id _ b.dl
        (record { written_cap = k.written_cap; total_cap = k.total_cap }) h

step-AllCapped :
    (hexdigest : List ℕ → String) (c : Call) (b : Board)
    → AllCapped b
    → AllCapped (step hexdigest c b)
unfolding step
step-AllCapped hexdigest (begins env r) b h = begin-AllCapped env r b h
step-AllCapped hexdigest (chunks env file_id peer_id raw z) b h =
    chunk-AllCapped env file_id peer_id raw z b h
step-AllCapped hexdigest (digests file_id peer_id digest) b h =
    digest-AllCapped file_id peer_id digest b h
step-AllCapped hexdigest (finishes replaces file_id peer_id ok) b h =
    dl_finish_cases file_id peer_id b hexdigest replaces ok (λ o. AllCapped o.1) h
      λ d e p. AllValues-erase IsCapped file_id b.dl h
step-AllCapped hexdigest (configures config) b h = h

-- Whatever the calls, their order and the machine's answers, and whatever the configuration changes
-- in between: if no transfer of the table has written or declared more than the ceiling that it was
-- accepted under, then none ever does.
pub run-AllCapped :
    (hexdigest : List ℕ → String) (cs : List Call) (b : Board)
    → AllCapped b
    → AllCapped (run hexdigest cs b)
run-AllCapped hexdigest = run_keeps hexdigest AllCapped (step-AllCapped hexdigest)
