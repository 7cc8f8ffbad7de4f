-- ===== src/Download/Ceiling.antt =====
-- Each transfer of the table and the call of `_dl_begin` that let it in.
use lan_chat.Base.{
  ℕ, ◌≤◌, String, ◌≡◌, refl, sym, ap, ◌∙◌, ◌⊎◌, inl, inr, true, Option, some, List, [], ◌∷◌, ◌++◌,
}
use lan_chat.Base.Int.{ℤ}
use lan_chat.Dict.{Dict, lookup}
use lan_chat.Dict.Sums.{AllValues-lookup}
use lan_chat.Dict.Entries.{
  AllEntries, AllEntries-map, AllEntries-insert, AllEntries-erase, AllEntries-keep,
  AllEntries-lookup,
}
use lan_chat.Download.Types.{Limits, Entry, Board, empty_board}
use lan_chat.Download.Begin.{BeginEnv, Request, purge, dl_begin}
use lan_chat.Download.Chunk.{ChunkEnv, dl_abort_locked, append_raw, grown, dl_chunk}
use lan_chat.Files.{write}
use lan_chat.Download.BeginCases.{dl_begin_cases}
use lan_chat.Download.ChunkCases.{dl_chunk_cases}
use lan_chat.Download.FinishCases.{dl_finish_cases, set_expected_digest_cases}
use lan_chat.Download.Run.{Call, begins, chunks, digests, finishes, configures, step, run}
use lan_chat.Download.Bounds.{IsCapped, run-AllCapped}

-- The ceiling, the peer and the destination are as before.
abbrev Keeps : Entry → Entry → Type 0
Keeps d e = (e.cap ≡ d.cap) × (e.peer ≡ d.peer) × (e.save_to ≡ d.save_to)

-- The call lets the transfer in, under the ceiling in force.
abbrev IsNew : Call → Board → String → Entry → Type 0
IsNew (begins env r) b k e =
    ((dl_begin env r b).0 ≡ true)
    × (r.file_id ≡ k)
    × (e.cap ≡ b.limits.att_max_bytes)
    × (e.peer ≡ r.peer_id)
    × (e.save_to ≡ r.save_to)
IsNew _ b k e = ⊥

abbrev Kept : (String → Entry → Type 0) → String → Entry → Type 0
Kept P k e = (d : Entry) × P k d × Keeps d e

abbrev Traced : (String → Entry → Type 0) → Call → Board → String → Entry → Type 0
Traced P c b k e = Kept P k e ⊎ IsNew c b k e

module _ (P : String → Entry → Type 0) where
  unmoved :
      (c : Call) (b : Board) (dl : Dict Entry) → AllEntries P dl → AllEntries (Traced P c b) dl
  unmoved c b dl = AllEntries-map P (Traced P c b) (λ k e p. inl (e, p, (refl, refl, refl))) dl

  begin-Traced :
      (env : BeginEnv) (r : Request) (b : Board)
      → AllEntries P b.dl
      → AllEntries (Traced P (begins env r) b) (dl_begin env r b).1.dl
  unfolding purge
  begin-Traced env r b h =
      dl_begin_cases env r b
        (λ o. o ≡ dl_begin env r b → AllEntries (Traced P (begins env r) b) o.1.dl)
        (λ reason fs n q. purged)
        (λ a q.
          AllEntries-insert (Traced P (begins env r) b) r.file_id _ (purge env.now b).dl
            (inr (sym (ap (λ o. o.0) q), refl, refl, refl, refl)) purged)
        refl
    where
      purged : AllEntries (Traced P (begins env r) b) (purge env.now b).dl
      purged = unmoved (begins env r) b (purge env.now b).dl (AllEntries-keep P _ b.dl h)

  module _ (b : Board) (h : AllEntries P b.dl) where
    put :
        (c : Call) (k : String) (d e : Entry)
        → lookup k b.dl ≡ some d
        → Keeps d e
        → Traced P c b k e
    put c k d e found keeps = inl (d, AllEntries-lookup P k d b.dl h found, keeps)

    chunk-Traced :
        (env : ChunkEnv) (file_id peer_id : String) (raw : Option (List ℕ)) (z : ℤ)
        → let c = chunks env file_id peer_id raw z in
          AllEntries (Traced P c b) (dl_chunk env file_id peer_id raw z b).board.dl
    unfolding dl_abort_locked append_raw
    chunk-Traced env file_id peer_id raw z =
        let c : Call = chunks env file_id peer_id raw z in
        let Done : String → Entry → Type 0 = Traced P c b in
        let all : AllEntries Done b.dl = unmoved c b b.dl h in
        dl_chunk_cases env file_id peer_id b (λ o. AllEntries Done o.board.dl) raw z all
          (λ d d' n w e p t. AllEntries-erase Done file_id b.dl all)
          (λ d d' e p s.
            AllEntries-insert Done file_id d' b.dl
              (put c file_id d d' e
                (ap (λ x. x.cap) s.same, ap (λ x. x.peer) s.same, ap (λ x. x.save_to) s.same))
              all)
          (λ d d' d'' bytes e p q s a.
            AllEntries-insert Done file_id (grown env d'' (write b.files d''.fh bytes).1 bytes) b.dl
              (put c file_id d (grown env d'' (write b.files d''.fh bytes).1 bytes) e (
                ap (λ x. x.cap) a.room.same ∙ ap (λ x. x.cap) s.same,
                ap (λ x. x.peer) a.room.same ∙ ap (λ x. x.peer) s.same,
                ap (λ x. x.save_to) a.room.same ∙ ap (λ x. x.save_to) s.same,
              ))
              all)

    step-Traced :
        (hexdigest : List ℕ → String) (c : Call) → AllEntries (Traced P c b) (step hexdigest c b).dl
    unfolding step
    step-Traced hexdigest (begins env r) = begin-Traced env r b h
    step-Traced hexdigest (chunks env file_id peer_id raw z) =
        chunk-Traced env file_id peer_id raw z
    step-Traced hexdigest (digests file_id peer_id digest) =
        let c : Call = digests file_id peer_id digest in
        let all : AllEntries (Traced P c b) b.dl = unmoved c b b.dl h in
        set_expected_digest_cases file_id peer_id b digest (λ x. AllEntries (Traced P c b) x.dl) all
          λ d e p n.
            AllEntries-insert (Traced P c b) file_id _ b.dl
              (put c file_id d (record d { sha256 = digest }) e (refl, refl, refl)) all
    step-Traced hexdigest (finishes replaces file_id peer_id ok) =
        let c : Call = finishes replaces file_id peer_id ok in
        let all : AllEntries (Traced P c b) b.dl = unmoved c b b.dl h in
        dl_finish_cases file_id peer_id b hexdigest replaces ok
          (λ o. AllEntries (Traced P c b) o.1.dl) all
          λ d e p. AllEntries-erase (Traced P c b) file_id b.dl all
    step-Traced hexdigest (configures config) = unmoved (configures config) b b.dl h

-- The call of the history that let the transfer in, the board before it, and what the transfer keeps of
-- the call.
pub record IsLetInBy (hexdigest : List ℕ → String) (cs : List Call) (b : Board) (k : String)
    (e : Entry) : Type 0 where
  pub before : List Call
  pub after : List Call
  pub env : BeginEnv
  pub request : Request
  pub history : cs ≡ before ++ (begins env request ∷ after)
  pub let_in : (dl_begin env request (run hexdigest before b)).0 ≡ true
  pub file_id : request.file_id ≡ k
  pub cap : e.cap ≡ (run hexdigest before b).limits.att_max_bytes
  pub peer : e.peer ≡ request.peer_id
  pub save_to : e.save_to ≡ request.save_to

module _ (hexdigest : List ℕ → String) where
  sooner :
      (c : Call) (cs : List Call) (b : Board) (k : String) (e : Entry)
      → IsLetInBy hexdigest cs (step hexdigest c b) k e
      → IsLetInBy hexdigest (c ∷ cs) b k e
  unfolding run
  sooner c cs b k e x = record {
    before = c ∷ x.before;
    after = x.after;
    env = x.env;
    request = x.request;
    history = ap (λ l. c ∷ l) x.history;
    let_in = x.let_in;
    file_id = x.file_id;
    cap = x.cap;
    peer = x.peer;
    save_to = x.save_to;
  }

  first :
      (c : Call) (cs : List Call) (b : Board) (k : String) (d e : Entry)
      → IsNew c b k d
      → Keeps d e
      → IsLetInBy hexdigest (c ∷ cs) b k e
  unfolding run
  first (begins env r) cs b k d e (let_in, id, cap, peer, path) (cap', peer', path') = record {
    before = [];
    after = cs;
    env = env;
    request = r;
    history = refl;
    let_in = let_in;
    file_id = id;
    cap = cap' ∙ cap;
    peer = peer' ∙ peer;
    save_to = path' ∙ path;
  }
  first (chunks env file_id peer_id raw z) cs b k d e n q = absurd n
  first (digests file_id peer_id digest) cs b k d e n q = absurd n
  first (finishes replaces file_id peer_id ok) cs b k d e n q = absurd n
  first (configures config) cs b k d e n q = absurd n

  run-Traced :
      (P : String → Entry → Type 0) (cs : List Call) (b : Board)
      → AllEntries P b.dl
      → AllEntries (λ k e. Kept P k e ⊎ IsLetInBy hexdigest cs b k e) (run hexdigest cs b).dl
  unfolding run
  run-Traced P [] b h =
      AllEntries-map P (λ k e. Kept P k e ⊎ IsLetInBy hexdigest [] b k e)
        (λ k e p. inl (e, p, (refl, refl, refl))) b.dl h
  run-Traced P (c ∷ cs) b h =
      AllEntries-map
        (λ k e. Kept (Traced P c b) k e ⊎ IsLetInBy hexdigest cs (step hexdigest c b) k e)
        (λ k e. Kept P k e ⊎ IsLetInBy hexdigest (c ∷ cs) b k e)
        (λ k e x. elim x [
          | inl (d, inl (d0, p, q), q') ↦ inl (d0, p, (q'.0 ∙ q.0, q'.1 ∙ q.1, q'.2 ∙ q.2))
          | inl (d, inr n, q') ↦ inr (first c cs b k d e n q')
          | inr later ↦ inr (sooner c cs b k e later)
        ])
        (run hexdigest (c ∷ cs) b).dl
        (run-Traced (Traced P c b) cs (step hexdigest c b) (step-Traced P b h hexdigest c))

-- After any calls from the start of the daemon on, whatever their order, the machine's answers and the
-- changes of the configuration in between, each transfer of the table was let in by a call of the
-- history for its id, peer and destination; and it has neither written nor declared more bytes than
-- the ceiling that was in force at that call, also where the ceiling has changed since.
pub run-IsLetInBy :
    (hexdigest : List ℕ → String) (cs : List Call) (limits : Limits) (k : String) (e : Entry)
    → lookup k (run hexdigest cs (empty_board limits)).dl ≡ some e
    → (x : IsLetInBy hexdigest cs (empty_board limits) k e) × (e.written
        ≤ (run hexdigest x.before (empty_board limits)).limits.att_max_bytes)
      × (e.total ≤ (run hexdigest x.before (empty_board limits)).limits.att_max_bytes)
run-IsLetInBy hexdigest cs limits k e found =
    let start : Board = empty_board limits in
    let capped : IsCapped e =
      AllValues-lookup IsCapped k e (run hexdigest cs start).dl
        (run-AllCapped hexdigest cs start tt) found in
    elim (AllEntries-lookup _ k e (run hexdigest cs start).dl
      (run-Traced hexdigest (λ k e. ⊥) cs start tt) found) [
        | inl (d, never, q) ↦ absurd never
        | inr x ↦ (x, rw⁻¹ x.cap capped.written_cap, rw⁻¹ x.cap capped.total_cap)
      ]
