-- ===== src/Download/ChunkCases.antt =====
-- The ways in which `_dl_chunk` can leave the table, as a rule for the proofs about it.
use lan_chat.Base.{
  ℕ, zero, suc, ◌+◌, ◌-◌, ◌≤◌, ◌<◌, String, ◌≡◌, refl, ap, ◌∙◌, ◌⊎◌, inl, inr, false, Option, none,
  some, List, arith, length, Bool-cases, Option-cases, str_eq, eq_iff, ltb, leb, ◌&&◌,
}
use lan_chat.Base.Int.{ℤ, pos, negsuc, pos_part}
use lan_chat.Dict.{lookup, insert}
use lan_chat.Download.Types.{Entry, Board}
use lan_chat.Download.Reserve.{reserved_bytes_locked}
use lan_chat.Download.Chunk.{
  ChunkEnv, Received, Verdict, abort, proceed, check_total, check_space, receive, write_raw,
  append_raw, after_total, dl_abort_locked, dl_chunk,
}

-- What the checks on the total let through: only the total changes, and a first total has passed
-- the ceiling and the budget.
pub record Declares (b : Board) (z : ℤ) (d d' : Entry) : Type 0 where
  pub same : d' ≡ record d { total = d'.total }
  pub claim : (d'.total ≡ d.total) ⊎ (d'.total ≡ pos_part z)
  pub charge :
      (d'.total ≡ d.total)
      ⊎ ((d.total ≡ 0)
          × (d'.total ≤ d.cap)
          × (reserved_bytes_locked b.dl - d.written + d'.total ≤ b.limits.att_max_reserved_bytes))

pub check_total-Declares :
    (env : ChunkEnv) (b : Board) (d : Entry) (z : ℤ) {d' : Entry}
    → check_total env b d z ≡ proceed d'
    → Declares b z d d'
unfolding check_total
check_total-Declares env b d (negsuc n) h = cc
check_total-Declares env b d (pos zero) h = record {
  same = ground arith;
  claim = inl (ground arith);
  charge = inl (ground arith);
}
check_total-Declares env b d (pos (suc n)) h = record {
  same = ground arith;
  claim = inr (ground arith);
  charge = ground arith;
}

-- What the floor check lets through: the chunk ends before the next probe, or the probe has shown
-- that the floor stands after it.
pub record HasRoom (env : ChunkEnv) (b : Board) (d : Entry) (len : ℕ) (d' : Entry) : Type 0 where
  pub same : d' ≡ record d { next_disk_check = d'.next_disk_check }
  pub floor :
      (d.written + len < d'.next_disk_check)
      ⊎ ((free : ℕ) × (env.free ≡ some free) × (b.limits.att_min_free_bytes + len ≤ free))

pub check_space-HasRoom :
    (env : ChunkEnv) (b : Board) (d : Entry) (len : ℕ) {d' : Entry}
    → check_space env b d len ≡ proceed d'
    → HasRoom env b d len d'
unfolding check_space
check_space-HasRoom env b d len h = elim (Option-cases env.free) [
  | inl e ↦ record { same = ground arith; floor = inl (ground arith) }
  | inr (free, e) ↦ elim (Bool-cases (leb d.next_disk_check (d.written + len))) [
    | inl probed ↦ record { same = ground arith; floor = inr (free, e, ground arith) }
    | inr early ↦ record { same = ground arith; floor = inl (ground arith) }
  ]
]

-- An accepted chunk: `d` is the entry with its total, `d'` the one with the next probe.
pub record Accepts (env : ChunkEnv) (b : Board) (d d' : Entry) (raw : List ℕ) : Type 0 where
  pub room : HasRoom env b d (length raw) d'
  pub in_cap : d.written + length raw ≤ d.cap
  pub in_total : (d.total ≡ 0) ⊎ (d.written + length raw ≤ d.total)

-- A property of the outcome holds if it holds where the call is ignored, aborts, keeps the entry
-- with its total because the data do not decode, or appends the bytes.
module _ (env : ChunkEnv) (file_id peer_id : String) (b : Board) (P : Received → Type 0) where
  receive_cases :
      (d : Entry) (raw : Option (List ℕ))
      → ((d' : Entry) (n w : ℕ)
          → d'.tmp ≡ d.tmp
          → P (record { ok = false; total = n; written = w; board = dl_abort_locked file_id d' b }))
      → P (record {
        ok = false;
        total = d.total;
        written = d.written;
        board = record b { dl = insert file_id d b.dl };
      })
      → ((d' : Entry) (bytes : List ℕ)
          → raw ≡ some bytes
          → Accepts env b d d' bytes
          → P (append_raw env file_id d' bytes b))
      → P (receive env file_id raw b d)
  unfolding receive
  receive_cases d none stop kept add = kept
  receive_cases d (some bytes) stop kept add =
      elim (Bool-cases (ltb d.cap (d.written + length bytes))) [
        | inl over ↦ rw over (stop d d.total d.written refl)
        | inr fits ↦ elim (Bool-cases (ltb 0 d.total && ltb d.total (d.written + length bytes))) [
          | inl over ↦ rw (fits, over) (stop d d.total d.written refl)
          | inr short ↦ rw (fits, short) (spaced fits short _ refl)
        ]
      ]
    where
      spaced :
          ltb d.cap (d.written + length bytes) ≡ false
          → ltb 0 d.total && ltb d.total (d.written + length bytes) ≡ false
          → (v : Verdict) → check_space env b d (length bytes) ≡ v
          → P (write_raw env file_id bytes b v d)
      spaced fits short (abort reason reported) e = stop d reported d.written refl
      spaced fits short (proceed d') e =
          let room = check_space-HasRoom env b d (length bytes) e in
          elim (Bool-cases env.writes) [
            | inl works ↦ rw works (
                add d' bytes refl
                  (record { room = room; in_cap = ground arith; in_total = ground arith }))
            | inr fails ↦ rw fails (stop d' d'.total d'.written (ap (λ x. x.tmp) room.same))
          ]

  pub dl_chunk_cases :
      (raw : Option (List ℕ)) (z : ℤ)
      → P (record { ok = false; total = 0; written = 0; board = b })
      → ((d d' : Entry) (n w : ℕ)
          → lookup file_id b.dl ≡ some d
          → d.peer ≡ peer_id
          → d'.tmp ≡ d.tmp
          → P (record { ok = false; total = n; written = w; board = dl_abort_locked file_id d' b }))
      → ((d d' : Entry)
          → lookup file_id b.dl ≡ some d
          → d.peer ≡ peer_id
          → Declares b z d d'
          → P (record {
            ok = false;
            total = d'.total;
            written = d'.written;
            board = record b { dl = insert file_id d' b.dl };
          }))
      → ((d d' d'' : Entry) (bytes : List ℕ)
          → lookup file_id b.dl ≡ some d
          → d.peer ≡ peer_id
          → raw ≡ some bytes
          → Declares b z d d'
          → Accepts env b d' d'' bytes
          → P (append_raw env file_id d'' bytes b))
      → P (dl_chunk env file_id peer_id raw z b)
  unfolding dl_chunk
  dl_chunk_cases raw z ignore stop kept add = elim (Option-cases (lookup file_id b.dl)) [
    | inl e ↦ rw (e, dl_chunk) ignore
    | inr (d, e) ↦ elim (Bool-cases (str_eq d.peer peer_id)) [
      | inr other ↦ rw (e, dl_chunk, other) ignore
      | inl own ↦ rw (e, dl_chunk, own) (declared d e ((eq_iff d.peer peer_id).0 own) _ refl)
    ]
  ]
    where
      declared :
          (d : Entry)
          → lookup file_id b.dl ≡ some d
          → d.peer ≡ peer_id
          → (v : Verdict) → check_total env b d z ≡ v
          → P (after_total env file_id raw b d v)
      declared d e p (abort reason reported) h = stop d d reported d.written e p refl
      declared d e p (proceed d') h =
          let dec = check_total-Declares env b d z h in
          receive_cases d' raw (λ d'' n w t. stop d d'' n w e p (t ∙ ap (λ x. x.tmp) dec.same))
            (kept d d' e p dec) (λ d'' bytes r acc. add d d' d'' bytes e p r dec acc)
