-- ===== src/Download/FinishCases.antt =====
-- The ways in which `_dl_finish` and `set_expected_digest` can leave the table.
use lan_chat.Base.{
  ℕ, String, ◌≡◌, inl, inr, Bool, Option, none, some, List, arith, Bool-cases, Option-cases, str_eq,
  eq_iff, ◌&&◌,
}
use lan_chat.Dict.{lookup, insert, erase}
use lan_chat.Download.Types.{Entry, Board}
use lan_chat.Download.Finish.{Outcome, close_entry, dl_finish, set_expected_digest}

module _ (file_id peer_id : String) (b : Board) where
  pub set_expected_digest_cases :
      (digest : String) (P : Board → Type 0)
      → P b
      → ((d : Entry)
          → lookup file_id b.dl ≡ some d
          → d.peer ≡ peer_id
          → d.sha256 ≡ ""
          → P (record b { dl = insert file_id (record d { sha256 = digest }) b.dl }))
      → P (set_expected_digest file_id peer_id digest b)
  unfolding set_expected_digest
  set_expected_digest_cases digest P same put = elim (Bool-cases (str_eq digest "")) [
    | inl e ↦ rw (e, set_expected_digest) same
    | inr given ↦ elim (Option-cases (lookup file_id b.dl)) [
      | inl e ↦ rw (given, e, set_expected_digest) same
      | inr (d, e) ↦ elim (Bool-cases (str_eq d.peer peer_id && str_eq d.sha256 "")) [
        | inr other ↦ rw (given, e, set_expected_digest, other) same
        | inl own ↦
            rw (given, e, set_expected_digest, own)
              (put d e (ground (arith, eq_iff d.peer peer_id)) (ground (arith, eq_iff d.sha256 "")))
      ]
    ]
  ]

  pub dl_finish_cases :
      (hexdigest : List ℕ → String) (replaces ok : Bool) (P : Option Outcome × Board → Type 0)
      → P (none, b)
      → ((d : Entry)
          → lookup file_id b.dl ≡ some d
          → d.peer ≡ peer_id
          → let (o, fs) = close_entry hexdigest replaces ok d b.files in
            P (some o, record b { dl = erase file_id b.dl; files = fs }))
      → P (dl_finish hexdigest replaces file_id peer_id ok b)
  unfolding dl_finish
  dl_finish_cases hexdigest replaces ok P same close = elim (Option-cases (lookup file_id b.dl)) [
    | inl e ↦ rw (e, dl_finish) same
    | inr (d, e) ↦ elim (Bool-cases (str_eq d.peer peer_id)) [
      | inr other ↦ rw (e, dl_finish, other) same
      | inl own ↦ rw (e, dl_finish, own) (close d e ((eq_iff d.peer peer_id).0 own))
    ]
  ]
