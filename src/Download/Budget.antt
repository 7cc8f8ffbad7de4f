-- ===== src/Download/Budget.antt =====
-- The aggregate budget: what the declared totals add up to.
use native.Mathlib.Nat.{le_trans}
use lan_chat.Base.{
  ℕ, ◌+◌, ◌≤◌, String, ◌≡◌, refl, ap, ◌∙◌, false, Option, some, List, [], ◌∷◌, arith, inl, inr, ltb,
  if◌then◌else◌,
}
use lan_chat.Base.Int.{ℤ}
use lan_chat.Dict.{Dict, lookup, insert}
use lan_chat.Dict.Sums.{
  total, total-insert, total-insert-le, total-erase-le, total-keep-le, le-total,
}
use lan_chat.Download.Types.{Entry, Board}
use lan_chat.Download.Reserve.{share, reserved_bytes_locked}
use lan_chat.Download.Begin.{BeginEnv, Request, purge, dl_begin}
use lan_chat.Download.Chunk.{ChunkEnv, dl_abort_locked, append_raw, dl_chunk}
use lan_chat.Download.BeginCases.{dl_begin_cases}
use lan_chat.Download.ChunkCases.{Declares, dl_chunk_cases}
use lan_chat.Download.FinishCases.{dl_finish_cases, set_expected_digest_cases}
use lan_chat.Download.Run.{
  Call, begins, chunks, digests, finishes, configures, is_configure, IsSettled, step, run,
  run_keeps_settled,
}

abbrev pub declared_bytes : Dict Entry → ℕ
declared_bytes dl = total (λ e. e.total) dl

-- What a transfer holds while it has declared nothing.
abbrev undeclared : Entry → ℕ
undeclared e = if ltb 0 e.total then 0 else e.written

reserved-declared :
    (dl : Dict Entry) → reserved_bytes_locked dl ≡ declared_bytes dl + total undeclared dl
unfolding reserved_bytes_locked share
reserved-declared [] = omega arith
reserved-declared ((k, e) ∷ dl) = ground (arith, reserved-declared dl)

-- The declared totals fit the budget.
abbrev pub InBudget : Board → Type 0
InBudget b = declared_bytes b.dl ≤ b.limits.att_max_reserved_bytes

declared-update :
    (file_id : String) (d d' : Entry) (dl : Dict Entry)
    → lookup file_id dl ≡ some d
    → d'.total ≡ d.total
    → declared_bytes (insert file_id d' dl) ≡ declared_bytes dl
declared-update file_id d d' dl e p = omega (arith, total-insert (λ e. e.total) file_id d' d dl e)

-- A first total replaces the bytes that the transfer held without one.
declared-charge :
    (file_id : String) (b : Board) (z : ℤ) (d d' d'' : Entry)
    → lookup file_id b.dl ≡ some d
    → Declares b z d d'
    → d''.total ≡ d'.total
    → InBudget b
    → declared_bytes (insert file_id d'' b.dl) ≤ b.limits.att_max_reserved_bytes
declared-charge file_id b z d d' d'' e c p h = elim c.charge [
  | inl same ↦ omega (arith, declared-update file_id d d'' b.dl e (p ∙ same))
  | inr first ↦
      let held : undeclared d ≡ d.written = ground (arith, first.0) in
      omega (
        arith,
        first.0,
        first.2,
        held,
        le-total undeclared file_id d b.dl e,
        reserved-declared b.dl,
        total-insert (λ e. e.total) file_id d'' d b.dl e,
      )
]

begin-InBudget :
    (env : BeginEnv) (r : Request) (b : Board) → InBudget b → InBudget (dl_begin env r b).1
unfolding purge
begin-InBudget env r b h =
    let purged = total-keep-le (λ e. e.total) _ b.dl in
    dl_begin_cases env r b (λ o. InBudget o.1) (λ reason fs k. le_trans purged h)
      λ a. omega (
        arith,
        a.budget,
        reserved-declared (purge env.now b).dl,
        total-insert-le (λ e. e.total) r.file_id _ (purge env.now b).dl,
      )

chunk-InBudget :
    (env : ChunkEnv) (file_id peer_id : String) (raw : Option (List ℕ)) (z : ℤ) (b : Board)
    → InBudget b
    → InBudget (dl_chunk env file_id peer_id raw z b).board
unfolding dl_abort_locked append_raw
chunk-InBudget env file_id peer_id raw z b h =
    dl_chunk_cases env file_id peer_id b (λ o. InBudget o.board) raw z h
      (λ d d' n w e p t. le_trans (total-erase-le (λ e. e.total) file_id b.dl) h)
      (λ d d' e p c. declared-charge file_id b z d d' d' e c refl h)
      λ d d' d'' bytes e p r c a.
        declared-charge file_id b z d d' _ e c (ap (λ x. x.total) a.room.same) h

step-InBudget :
    (hexdigest : List ℕ → String) (c : Call) (b : Board)
    → is_configure c ≡ false
    → InBudget b
    → InBudget (step hexdigest c b)
unfolding step
step-InBudget hexdigest (begins env r) b s h = begin-InBudget env r b h
step-InBudget hexdigest (chunks env file_id peer_id raw z) b s h =
    chunk-InBudget env file_id peer_id raw z b h
step-InBudget hexdigest (digests file_id peer_id digest) b s h =
    set_expected_digest_cases file_id peer_id b digest InBudget h
      λ d e p n. omega (arith, declared-update file_id d _ b.dl e refl)
step-InBudget hexdigest (finishes replaces file_id peer_id ok) b s h =
    dl_finish_cases file_id peer_id b hexdigest replaces ok (λ o. InBudget o.1) h
      λ d e p. le_trans (total-erase-le (λ e. e.total) file_id b.dl) h
step-InBudget hexdigest (configures config) b s h = cc

-- While no call changes the limits, the totals that the active transfers have declared never add up
-- to more than the aggregate budget, if they did not at the start.
pub run-InBudget :
    (hexdigest : List ℕ → String) (cs : List Call) (b : Board)
    → IsSettled cs
    → InBudget b
    → InBudget (run hexdigest cs b)
run-InBudget hexdigest = run_keeps_settled hexdigest InBudget (step-InBudget hexdigest)
