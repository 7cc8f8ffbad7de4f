-- ===== src/Download/Outcomes.antt =====
-- How a transfer ends.
use lan_chat.Base.{
  ℕ, String, ◌≡◌, ◌≢◌, refl, ◌⊎◌, ◌↔◌, inl, inr, Bool, true, Option, none, some, List, arith,
  Option-cases, eq_iff,
}
use lan_chat.Dict.{lookup, lookup-erase_self}
use lan_chat.Files.{Files, read, remove, replace}
use lan_chat.Files.Laws.{read-remove, read-remove_ne, replace-some, replace-none}
use lan_chat.Download.Types.{Entry, Board}
use lan_chat.Download.Finish.{
  Status, saved, mismatch, incomplete, aborted, Outcome, outcome, close_entry, dl_finish,
}

-- What an end frame has to meet for the file to be kept.
pub record Passes (hexdigest : List ℕ → String) (replaces ok : Bool) (d : Entry) (fs : Files)
    : Type 0 where
  pub bytes : List ℕ
  pub ended : ok ≡ true
  pub complete : (d.total ≡ 0) ⊎ (d.written ≡ d.total)
  pub renames : replaces ≡ true
  pub part : read fs d.tmp ≡ some bytes
  pub digest : (d.sha256 ≡ "") ⊎ (hexdigest bytes ≡ d.sha256)

module _ (hexdigest : List ℕ → String) (replaces ok : Bool) (d : Entry) (fs : Files) where
  Passes-saved :
      (h : Passes hexdigest replaces ok d fs)
      → (fs' : Files) → replace fs d.tmp d.save_to ≡ some fs'
      → close_entry hexdigest replaces ok d fs ≡ (outcome saved d, fs')
  unfolding close_entry
  Passes-saved h fs' r = ground (
    arith,
    h.ended,
    h.complete,
    h.renames,
    h.part,
    h.digest,
    eq_iff d.sha256 "",
    eq_iff (hexdigest h.bytes) d.sha256,
  )

  pub saved-Passes :
      (close_entry hexdigest replaces ok d fs).0.status ≡ saved → Passes hexdigest replaces ok d fs
  unfolding close_entry
  saved-Passes h = elim (Option-cases (read fs d.tmp)) [
    | inl e ↦ ground (arith, e, replace-none fs d.tmp d.save_to e)
    | inr (bytes, e) ↦ record {
      bytes = bytes;
      ended = ground (arith, e);
      complete = ground (arith, e);
      renames = ground (arith, e);
      part = e;
      digest = ground (arith, e, eq_iff d.sha256 "", eq_iff (hexdigest bytes) d.sha256);
    }
  ]

  -- Where the file is not kept, the .part file is removed and nothing else happens on the disk.
  unsaved-files :
      (close_entry hexdigest replaces ok d fs).0.status ≢ saved
      → (close_entry hexdigest replaces ok d fs).1 ≡ remove fs d.tmp
  unfolding close_entry
  unsaved-files h = ground arith

-- The end of a transfer `d`.
pub record IsClosed (hexdigest : List ℕ → String) (replaces ok : Bool) (file_id : String)
    (d : Entry) (b : Board) (o : Option Outcome) (b' : Board) : Type 0 where
  pub result : Outcome
  pub returned : o ≡ some result
  pub gone : lookup file_id b'.dl ≡ none
  pub about : (result.save_to ≡ d.save_to) × (result.mid ≡ d.mid) × (result.room ≡ d.room)
  pub no_part : read b'.files d.tmp ≡ none
  pub verdict : (result.status ≡ saved) ↔ Passes hexdigest replaces ok d b.files
  pub kept : (p : Passes hexdigest replaces ok d b.files) → read b'.files d.save_to ≡ some p.bytes
  pub dropped : result.status ≢ saved → read b'.files d.save_to ≡ read b.files d.save_to

module _ (hexdigest : List ℕ → String) (replaces ok : Bool) (d : Entry) (fs : Files) where
  close_entry-about :
      let o = (close_entry hexdigest replaces ok d fs).0 in
      (o.save_to ≡ d.save_to) × (o.mid ≡ d.mid) × (o.room ≡ d.room)
  unfolding close_entry
  close_entry-about = ground arith

  Passes-read :
      d.tmp ≢ d.save_to
      → (p : Passes hexdigest replaces ok d fs)
      → let fs' = (close_entry hexdigest replaces ok d fs).1 in
        ((close_entry hexdigest replaces ok d fs).0.status ≡ saved)
        × (read fs' d.save_to ≡ some p.bytes)
        × (read fs' d.tmp ≡ none)
  Passes-read n p =
      let (fs', r, at_end, moved) = replace-some fs d.tmp d.save_to p.bytes p.part in
      rw (Passes-saved hexdigest replaces ok d fs p fs' r) (refl, at_end, moved n)

  unsaved-read :
      d.tmp ≢ d.save_to
      → (close_entry hexdigest replaces ok d fs).0.status ≢ saved
      → let fs' = (close_entry hexdigest replaces ok d fs).1 in
        (read fs' d.save_to ≡ read fs d.save_to) × (read fs' d.tmp ≡ none)
  unsaved-read n h =
      rw (unsaved-files hexdigest replaces ok d fs h)
        (read-remove_ne fs d.tmp d.save_to n, read-remove fs d.tmp)

  status_cases : (s : Status) → (s ≡ saved) ⊎ (s ≢ saved)
  status_cases saved = inl refl
  status_cases mismatch = inr (λ e. cc)
  status_cases incomplete = inr (λ e. cc)
  status_cases aborted = inr (λ e. cc)

  close_entry-no_part :
      d.tmp ≢ d.save_to → read (close_entry hexdigest replaces ok d fs).1 d.tmp ≡ none
  close_entry-no_part n = elim (status_cases (close_entry hexdigest replaces ok d fs).0.status) [
    | inl e ↦ (Passes-read n (saved-Passes hexdigest replaces ok d fs e)).2
    | inr e ↦ (unsaved-read n e).1
  ]

-- An end frame from the peer of a transfer takes it off the table, whatever the outcome, and leaves
-- no .part file. The file is reported as saved exactly when the sender ended it in order, every
-- declared byte is there, the digest (if one is expected) is that of the .part file and the system
-- renames it; then the destination holds the bytes of the .part file. In every other case the
-- destination is what it was.
pub dl_finish-IsClosed :
    (hexdigest : List ℕ → String) (replaces ok : Bool) (file_id peer_id : String) (b : Board)
    (d : Entry)
    → lookup file_id b.dl ≡ some d
    → d.peer ≡ peer_id
    → d.tmp ≢ d.save_to
    → let (o, b') = dl_finish hexdigest replaces file_id peer_id ok b in
      IsClosed hexdigest replaces ok file_id d b o b'
unfolding dl_finish
dl_finish-IsClosed hexdigest replaces ok file_id peer_id b d e p n =
    rw (e, dl_finish, (eq_iff d.peer peer_id).1 p)
      (record {
        result = (close_entry hexdigest replaces ok d b.files).0;
        returned = refl;
        gone = lookup-erase_self file_id b.dl;
        about = close_entry-about hexdigest replaces ok d b.files;
        no_part = close_entry-no_part hexdigest replaces ok d b.files n;
        verdict = (
          saved-Passes hexdigest replaces ok d b.files,
          λ h. (Passes-read hexdigest replaces ok d b.files n h).0,
        );
        kept = λ h. (Passes-read hexdigest replaces ok d b.files n h).1;
        dropped = λ h. (unsaved-read hexdigest replaces ok d b.files n h).0;
      })
