-- ===== src/Download/Transfer.antt =====
-- A whole transfer: the bytes of the accepted chunks, in their order, are the saved file.
use mathlib.Core.List.{append-nil, append_assoc}
use mathlib.Core.Option
use mathlib.Core.Path.{subst}
use lan_chat.Base.{
  ℕ, String, ◌≡◌, ◌≢◌, refl, sym, ap, ◌∙◌, ◌⊎◌, inl, inr, true, Option, none, some, List, [], ◌∷◌,
  ◌++◌, arith, length, length-append, Bool-cases, eq_of_some, if◌then◌else◌,
}
use lan_chat.Base.Int.{ℤ, pos_part}
use lan_chat.Dict.{lookup, lookup-insert_self}
use lan_chat.Files.{open_wb, write, read}
use lan_chat.Files.Laws.{open_wb-IsOpen, write-IsOpen, read-IsOpen, IsOpen}
use lan_chat.Download.Types.{Entry, Board}
use lan_chat.Download.Begin.{BeginEnv, Request, part_of, purge, new_entry, dl_begin}
use lan_chat.Download.Chunk.{ChunkEnv, append_raw, grown, dl_chunk}
use lan_chat.Download.Finish.{Outcome, dl_finish, saved}
use lan_chat.Download.BeginCases.{dl_begin_cases}
use lan_chat.Download.ChunkCases.{dl_chunk_cases}
use lan_chat.Download.Outcomes.{Passes, dl_finish-IsClosed}

-- The transfer `d` stands in the table and its .part file holds `received`.
pub record IsFed (r : Request) (n : ℕ) (received : List ℕ) (b : Board) : Type 0 where
  pub entry : Entry
  pub stored : lookup r.file_id b.dl ≡ some entry
  pub save_to : entry.save_to ≡ r.save_to
  pub tmp : entry.tmp ≡ part_of r.save_to
  pub peer : entry.peer ≡ r.peer_id
  pub digest : entry.sha256 ≡ r.sha256
  pub is_open : IsOpen b.files entry.tmp entry.fh received
  pub written : entry.written ≡ length received
  pub declared : (entry.total ≡ 0) ⊎ (entry.total ≡ n)

dl_begin-IsFed :
    (env : BeginEnv) (r : Request) (b : Board) (n : ℕ)
    → (pos_part r.total ≡ 0) ⊎ (pos_part r.total ≡ n)
    → (dl_begin env r b).0 ≡ true
    → IsFed r n [] (dl_begin env r b).1
dl_begin-IsFed env r b n t =
    dl_begin_cases env r b (λ o. o.0 ≡ true → IsFed r n [] o.1) (λ reason fs k h. cc)
      λ a h. record {
        entry = new_entry env r c.limits (open_wb c.files (part_of r.save_to)).1;
        stored = lookup-insert_self r.file_id _ c.dl;
        save_to = refl;
        tmp = refl;
        peer = refl;
        digest = refl;
        is_open = open_wb-IsOpen c.files (part_of r.save_to);
        written = refl;
        declared = t;
      }
  where
    c : Board
    c = purge env.now b

dl_chunk-IsFed :
    (env : ChunkEnv) (r : Request) (n : ℕ) (received raw : List ℕ) (z : ℤ) (b : Board)
    → pos_part z ≡ n
    → IsFed r n received b
    → (dl_chunk env r.file_id r.peer_id (some raw) z b).ok ≡ true
    → IsFed r n (received ++ raw) (dl_chunk env r.file_id r.peer_id (some raw) z b).board
unfolding append_raw
dl_chunk-IsFed env r n received raw z b zn f =
    dl_chunk_cases env r.file_id r.peer_id b
      (λ o. o.ok ≡ true → IsFed r n (received ++ raw) o.board) (some raw) z (λ h. cc)
      (λ d d' k w e p t h. cc) (λ d d' e p c h. cc)
      λ d d' d'' bytes e p q c a h.
        let s : d ≡ f.entry = eq_of_some (sym e ∙ f.stored) in
        let known : d'' ≡ record d' { next_disk_check = d''.next_disk_check } = a.room.same in
        let same : raw ≡ bytes = eq_of_some q in
        let open_as : IsOpen b.files d''.tmp d''.fh received = rw (known, c.same, s) f.is_open in
        let total : d''.total ≡ d'.total = ap (λ x. x.total) known in
        rw same (record {
          entry = grown env d'' (write b.files d''.fh bytes).1 bytes;
          stored = lookup-insert_self r.file_id _ b.dl;
          save_to =
              ap (λ x. x.save_to) known
              ∙ ap (λ x. x.save_to) c.same
              ∙ ap (λ x. x.save_to) s
              ∙ f.save_to;
          tmp = ap (λ x. x.tmp) known ∙ ap (λ x. x.tmp) c.same ∙ ap (λ x. x.tmp) s ∙ f.tmp;
          peer = ap (λ x. x.peer) known ∙ ap (λ x. x.peer) c.same ∙ p;
          digest =
              ap (λ x. x.sha256) known
              ∙ ap (λ x. x.sha256) c.same
              ∙ ap (λ x. x.sha256) s
              ∙ f.digest;
          is_open = write-IsOpen b.files d''.tmp d''.fh received bytes open_as;
          written = omega (
            arith,
            length-append received bytes,
            ap (λ x. x.written) known,
            ap (λ x. x.written) c.same,
            ap (λ x. x.written) s,
            f.written,
          );
          declared = ground (arith, total, c.claim, zn, ap (λ x. x.total) s, f.declared);
        })

-- The chunks of a transfer, each with the total `n`; none if one of them is refused.
unfoldable pub feed : Request → ℤ → List (ChunkEnv × List ℕ) → Board → Option Board
feed r z [] b = some b
feed r z ((env, raw) ∷ cs) b =
    let o = dl_chunk env r.file_id r.peer_id (some raw) z b in
    let rest = feed r z cs o.board in if o.ok then rest else none

abbrev pub payload : List (ChunkEnv × List ℕ) → List ℕ
payload [] = []
payload ((env, raw) ∷ cs) = raw ++ payload cs

feed-IsFed :
    (r : Request) (n : ℕ) (z : ℤ) (cs : List (ChunkEnv × List ℕ)) (received : List ℕ) (b b' : Board)
    → pos_part z ≡ n
    → IsFed r n received b
    → feed r z cs b ≡ some b'
    → IsFed r n (received ++ payload cs) b'
unfolding feed
feed-IsFed r n z [] received b b' zn f h =
    rw (append-nil received) (subst (IsFed r n received) (eq_of_some h) f)
feed-IsFed r n z ((env, raw) ∷ cs) received b b' zn f h =
    elim (Bool-cases (dl_chunk env r.file_id r.peer_id (some raw) z b).ok) [
      | inl ok ↦ rw (← append_assoc received raw (payload cs)) (
          feed-IsFed r n z cs (received ++ raw) _ b' zn
            (dl_chunk-IsFed env r n received raw z b zn f ok) (rw ok at h))
      | inr refused ↦ absurd (cc (rw refused at h))
    ]

-- A transfer from begin to end: if it is let in, if every chunk is taken, if their bytes together are
-- as many as the sender declared and have the expected digest (where one is expected), and if the
-- system renames the file, then it is reported as saved and the destination holds exactly the bytes
-- of the chunks, in order.
pub transfer_saves :
    (hexdigest : List ℕ → String) (env : BeginEnv) (r : Request) (z : ℤ)
    (cs : List (ChunkEnv × List ℕ)) (b b' : Board)
    → (dl_begin env r b).0 ≡ true
    → feed r z cs (dl_begin env r b).1 ≡ some b'
    → pos_part z ≡ length (payload cs)
    → (pos_part r.total ≡ 0) ⊎ (pos_part r.total ≡ length (payload cs))
    → (r.sha256 ≡ "") ⊎ (hexdigest (payload cs) ≡ r.sha256)
    → part_of r.save_to ≢ r.save_to
    → let (o, b'') = dl_finish hexdigest true r.file_id r.peer_id true b' in
      Option.map (λ (x : Outcome). x.status) o ≡ some saved
      × (read b''.files r.save_to ≡ some (payload cs))
transfer_saves hexdigest env r z cs b b' let_in fed zn total digest n =
    let f = feed-IsFed r _ z cs [] _ b' zn (dl_begin-IsFed env r b _ total let_in) fed in
    let passes : Passes hexdigest true true f.entry b'.files = record {
      bytes = payload cs;
      ended = refl;
      complete = ground (arith, f.declared, f.written);
      renames = refl;
      part = read-IsOpen b'.files f.entry.tmp f.entry.fh (payload cs) f.is_open;
      digest = rw f.digest digest;
    } in
    let apart : f.entry.tmp ≢ f.entry.save_to = rw (f.tmp, f.save_to) n in
    let closed =
      dl_finish-IsClosed hexdigest true true r.file_id r.peer_id b' f.entry f.stored f.peer apart in
    (
      ap (Option.map (λ (x : Outcome). x.status)) closed.returned
          ∙ ap some (closed.verdict.1 passes),
      rw (← f.save_to) (closed.kept passes),
    )
