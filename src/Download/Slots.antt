-- ===== src/Download/Slots.antt =====
-- The numbers of active transfers, in all and for each peer.
use lan_chat.Base.{
  ℕ, ◌+◌, ◌≤◌, String, ◌≡◌, refl, ap, ◌∙◌, false, Option, some, List, [], ◌∷◌, arith, length, inl,
  inr, Bool-cases, str_eq, eq_iff,
}
use native.Mathlib.Nat.{le_trans}
use lan_chat.Base.Int.{ℤ}
use lan_chat.Dict.{Dict, lookup, insert}
use lan_chat.Dict.Sums.{total, total-insert, total-insert-le, total-erase-le, total-keep-le}
use lan_chat.Download.Types.{Entry, Board, att_max_concurrent}
use lan_chat.Download.Reserve.{from_peer}
use lan_chat.Download.Begin.{BeginEnv, Request, purge, dl_begin}
use lan_chat.Download.Chunk.{ChunkEnv, dl_abort_locked, append_raw, dl_chunk}
use lan_chat.Download.BeginCases.{Admits, dl_begin_cases}
use lan_chat.Download.ChunkCases.{dl_chunk_cases}
use lan_chat.Download.FinishCases.{dl_finish_cases, set_expected_digest_cases}
use lan_chat.Download.Run.{
  Call, begins, chunks, digests, finishes, configures, is_configure, IsSettled, step, run,
  run_keeps, run_keeps_settled,
}

-- A count of transfers that depends on their peer alone.
abbrev ByPeer : (Entry → ℕ) → Type 0
ByPeer f = (d d' : Entry) → d'.peer ≡ d.peer → f d' ≡ f d

length-total : {V : Type 0} (d : Dict V) → total (λ _. 1) d ≡ length d
length-total [] = refl
length-total ((k, v) ∷ d) = omega (arith, length-total d)

-- Every call but a begin at most lowers such a count, and a begin adds the share of its entry.
module _ (f : Entry → ℕ) (by_peer : ByPeer f) where
  total-update :
      (file_id : String) (d d' : Entry) (dl : Dict Entry)
      → lookup file_id dl ≡ some d
      → d'.peer ≡ d.peer
      → total f (insert file_id d' dl) ≤ total f dl
  total-update file_id d d' dl e p = omega (arith, total-insert f file_id d' d dl e, by_peer d d' p)

  total-purge : (now : ℕ) (b : Board) → total f (purge now b).dl ≤ total f b.dl
  unfolding purge
  total-purge now b = total-keep-le f _ b.dl

  chunk-total-le :
      (env : ChunkEnv) (file_id peer_id : String) (raw : Option (List ℕ)) (z : ℤ) (b : Board)
      → total f (dl_chunk env file_id peer_id raw z b).board.dl ≤ total f b.dl
  unfolding dl_abort_locked append_raw
  chunk-total-le env file_id peer_id raw z b =
      dl_chunk_cases env file_id peer_id b (λ o. total f o.board.dl ≤ total f b.dl) raw z
        (omega arith) (λ d d' n w e p t. total-erase-le f file_id b.dl)
        (λ d d' e p c. total-update file_id d d' b.dl e (ap (λ x. x.peer) c.same))
        λ d d' d'' bytes e p r c a.
          total-update file_id d _ b.dl e (ap (λ x. x.peer) a.room.same ∙ ap (λ x. x.peer) c.same)

  -- So a bound on the count is kept if an accepted begin keeps it.
  module _ (bound : ℕ) where
    begin-total-le :
        (env : BeginEnv) (r : Request) (b : Board)
        → total f b.dl ≤ bound
        → ((e : Entry)
            → e.peer ≡ r.peer_id
            → Admits env r (purge env.now b)
            → total f (purge env.now b).dl + f e ≤ bound)
        → total f (dl_begin env r b).1.dl ≤ bound
    begin-total-le env r b h add =
        let purged = total-purge env.now b in
        dl_begin_cases env r b (λ o. total f o.1.dl ≤ bound) (λ reason fs k. omega arith)
          λ a. le_trans (total-insert-le f r.file_id _ (purge env.now b).dl) (add _ refl a)

    step-total-le :
        (hexdigest : List ℕ → String) (c : Call) (b : Board)
        → total f b.dl ≤ bound
        → ((env : BeginEnv) (r : Request) (e : Entry)
            → e.peer ≡ r.peer_id
            → Admits env r (purge env.now b)
            → total f (purge env.now b).dl + f e ≤ bound)
        → total f (step hexdigest c b).dl ≤ bound
    unfolding step
    step-total-le hexdigest (begins env r) b h add = begin-total-le env r b h (add env r)
    step-total-le hexdigest (chunks env file_id peer_id raw z) b h add =
        le_trans (chunk-total-le env file_id peer_id raw z b) h
    step-total-le hexdigest (digests file_id peer_id digest) b h add =
        set_expected_digest_cases file_id peer_id b digest (λ c. total f c.dl ≤ bound) h
          λ d e p s. le_trans (total-update file_id d _ b.dl e refl) h
    step-total-le hexdigest (finishes replaces file_id peer_id ok) b h add =
        dl_finish_cases file_id peer_id b hexdigest replaces ok (λ o. total f o.1.dl ≤ bound) h
          λ d e p. le_trans (total-erase-le f file_id b.dl) h
    step-total-le hexdigest (configures config) b h add = h

limits-purge :
    (now : ℕ) (b : Board) → (purge now b).limits.att_max_per_peer ≡ b.limits.att_max_per_peer
unfolding purge
limits-purge now b = refl

abbrev pub FewTransfers : Board → Type 0
FewTransfers b = length b.dl ≤ att_max_concurrent

step-FewTransfers :
    (hexdigest : List ℕ → String) (c : Call) (b : Board)
    → FewTransfers b
    → FewTransfers (step hexdigest c b)
step-FewTransfers hexdigest c b h =
    let before = length-total b.dl in
    let after = length-total (step hexdigest c b).dl in
    let bounded =
      step-total-le (λ _. 1) (λ d d' p. refl) att_max_concurrent hexdigest c b (omega arith)
        λ env r e p a. omega (arith, a.concurrent, length-total (purge env.now b).dl) in
    omega (arith, before, after, bounded)

-- Whatever the calls and the configuration, there are never more than eight active transfers if
-- there were not at the start.
pub run-FewTransfers :
    (hexdigest : List ℕ → String) (cs : List Call) (b : Board)
    → FewTransfers b
    → FewTransfers (run hexdigest cs b)
run-FewTransfers hexdigest = run_keeps hexdigest FewTransfers (step-FewTransfers hexdigest)

-- `step` changes the limits by a configuration only.
pub step-limits :
    (hexdigest : List ℕ → String) (c : Call) (b : Board)
    → is_configure c ≡ false
    → (step hexdigest c b).limits ≡ b.limits
unfolding step dl_abort_locked append_raw purge
step-limits hexdigest (begins env r) b h =
    dl_begin_cases env r b (λ o. o.1.limits ≡ b.limits) (λ reason fs k. refl) λ a. refl
step-limits hexdigest (chunks env file_id peer_id raw z) b h =
    dl_chunk_cases env file_id peer_id b (λ o. o.board.limits ≡ b.limits) raw z refl
      (λ d d' n w e p t. refl) (λ d d' e p c. refl) λ d d' d'' bytes e p r c a. refl
step-limits hexdigest (digests file_id peer_id digest) b h =
    set_expected_digest_cases file_id peer_id b digest (λ c. c.limits ≡ b.limits) refl
      λ d e p s. refl
step-limits hexdigest (finishes replaces file_id peer_id ok) b h =
    dl_finish_cases file_id peer_id b hexdigest replaces ok (λ o. o.1.limits ≡ b.limits) refl
      λ d e p. refl
step-limits hexdigest (configures config) b h = cc

-- No peer has more transfers than a configuration allows it.
abbrev pub FewOfPeer : String → Board → Type 0
FewOfPeer peer_id b = total (from_peer peer_id) b.dl ≤ b.limits.att_max_per_peer

from_peer-ByPeer : (peer_id : String) → ByPeer (from_peer peer_id)
unfolding from_peer
from_peer-ByPeer peer_id d d' p = rw p

from_peer-le : (peer_id : String) (e : Entry) → from_peer peer_id e ≤ 1
unfolding from_peer
from_peer-le peer_id e = ground arith

from_peer-ne : (p q : String) (e : Entry) → e.peer ≡ q → str_eq q p ≡ false → from_peer p e ≡ 0
unfolding from_peer
from_peer-ne p q e h n = rw (h, n)

step-FewOfPeer :
    (hexdigest : List ℕ → String) (peer_id : String) (c : Call) (b : Board)
    → is_configure c ≡ false
    → FewOfPeer peer_id b
    → FewOfPeer peer_id (step hexdigest c b)
step-FewOfPeer hexdigest peer_id c b s h = rw (step-limits hexdigest c b s) (
    step-total-le (from_peer peer_id) (from_peer-ByPeer peer_id) b.limits.att_max_per_peer hexdigest
      c b h added)
  where
    added :
        (env : BeginEnv) (r : Request) (e : Entry)
        → e.peer ≡ r.peer_id
        → Admits env r (purge env.now b)
        → total (from_peer peer_id) (purge env.now b).dl + from_peer peer_id e
          ≤ b.limits.att_max_per_peer
    added env r e p a = elim (Bool-cases (str_eq r.peer_id peer_id)) [
      | inl own ↦
          let same : r.peer_id ≡ peer_id = (eq_iff r.peer_id peer_id).0 own in
          let slots = rw same at a.slots in
          omega (arith, from_peer-le peer_id e, slots, limits-purge env.now b)
      | inr other ↦ omega (
        arith,
        h,
        from_peer-ne peer_id r.peer_id e p other,
        total-purge (from_peer peer_id) (from_peer-ByPeer peer_id) env.now b,
      )
    ]

-- While no call changes the limits, no peer ever has more active transfers than the limit for one
-- peer, if it had not at the start.
pub run-FewOfPeer :
    (hexdigest : List ℕ → String) (peer_id : String) (cs : List Call) (b : Board)
    → IsSettled cs
    → FewOfPeer peer_id b
    → FewOfPeer peer_id (run hexdigest cs b)
run-FewOfPeer hexdigest peer_id =
    run_keeps_settled hexdigest (FewOfPeer peer_id) (step-FewOfPeer hexdigest peer_id)
