-- ===== src/Connection/Proof.antt =====
-- Nothing of a connection is handled before its identity is proved.
use mathlib.Core.Path.{subst}
use lan_chat.Base.{
  ℕ, ◌≤◌, String, ◌≡◌, refl, sym, true, false, not, List, [], ◌∷◌, ◌++◌, map, arith, length, ◌==◌,
  ◌||◌, ltb, if_cases, All, All-append,
}
use lan_chat.Connection.Lines.{split}
use lan_chat.Connection.Inbound.{
  AuthState, idle, challenged, ok, Msg, identity, identity_proof, other, skipped, no_object, parsed,
  Session, Reader, Source, max_frame_buf, deferred_max_msgs, deferred_max_bytes, close, new_reader,
  is_bad_identity, on_identity, on_proof, defer, on_msg, on_line, on_lines, feed, feed_all,
}

module _ {M : Type 0} (src : Source M) where
  -- What holds at each stage of the handshake.
  abbrev pub Stage : AuthState → Session M → Type 0
  Stage idle s = s.handled ≡ []
  Stage challenged s = (s.handled ≡ []) × (is_bad_identity src s.pid s.auth_cert ≡ false)
  Stage ok s =
      (is_bad_identity src s.pid s.auth_cert ≡ false)
      × ((sig : String) × (src.crypto.verify s.auth_cert src.nonce sig ≡ true))
      × All (λ (p, m). p ≡ s.pid) s.handled

  abbrev pub Bounds : Session M → Type 0
  Bounds s =
      s.closed ≡ false
      → (length s.deferred ≤ deferred_max_msgs) × (s.deferred_bytes ≤ deferred_max_bytes)

  pub record IsSafe (s : Session M) : Type 0 where
    pub stage : Stage s.auth_state s
    pub bounds : Bounds s

  named : (pid : String) (ms : List (Msg M)) → All (λ (p, m). p ≡ pid) (map (λ m. (pid, m)) ms)
  named pid [] = tt
  named pid (m ∷ ms) = (refl, named pid ms)

  close-IsSafe : (s : Session M) → IsSafe s → IsSafe (close s)
  close-IsSafe s h = record { stage = restage s.auth_state h.stage; bounds = λ e. absurd (cc) }
    where
      restage : (st : AuthState) → Stage st s → Stage st (close s)
      restage idle x = x
      restage challenged x = x
      restage ok x = x

  identity-IsSafe :
      (claimed cert : String) (s : Session M)
      → s.closed ≡ false
      → s.handled ≡ []
      → IsSafe s
      → IsSafe (on_identity src claimed cert s)
  unfolding on_identity
  identity-IsSafe claimed cert s live q h =
      if_cases IsSafe (is_bad_identity src claimed cert) (λ e. close-IsSafe s h)
        (λ e. record { stage = (q, e); bounds = λ o. h.bounds live })

  proof-IsSafe :
      (sig : String) (s : Session M)
      → (s.handled ≡ []) × (is_bad_identity src s.pid s.auth_cert ≡ false)
      → IsSafe s
      → IsSafe (on_proof src sig s)
  unfolding on_proof
  proof-IsSafe sig s q h =
      if_cases IsSafe (not (src.crypto.verify s.auth_cert src.nonce sig)) (λ e. close-IsSafe s h)
        (λ e. record {
          stage = (q.1, (sig, ground (arith, e)), rw q.0 (named s.pid s.deferred));
          bounds = λ o. (omega arith, omega arith);
        })

  defer-IsSafe :
      (line : List ℕ) (m : Msg M) (s : Session M) → IsSafe s → IsSafe (defer src line m s)
  unfolding defer
  defer-IsSafe line m s h = record {
    stage = restage s.auth_state h.stage;
    bounds = λ o. (ground (arith, o), ground (arith, o));
  }
    where
      restage : (st : AuthState) → Stage st s → Stage st (defer src line m s)
      restage idle x = x
      restage challenged x = x
      restage ok x = x

  msg-IsSafe :
      (st : AuthState) (line : List ℕ) (m : Msg M) (s : Session M)
      → s.auth_state ≡ st
      → s.closed ≡ false
      → IsSafe s
      → IsSafe (on_msg src st line m s)
  unfolding on_msg
  msg-IsSafe ok line m s e live h =
      let now : Stage ok s = subst (λ x. Stage x s) e h.stage in
      let s' : Session M = record s { handled = s.handled ++ (s.pid, m) ∷ [] } in
      let later : Stage ok s' = (
        now.0,
        now.1,
        All-append (λ (p, m). p ≡ s.pid) s.handled ((s.pid, m) ∷ []) now.2 (refl, tt),
      ) in
      record { stage = subst (λ x. Stage x s') (sym e) later; bounds = h.bounds }
  msg-IsSafe idle line (identity claimed cert) s e live h =
      identity-IsSafe claimed cert s live (subst (λ x. Stage x s) e h.stage) h
  msg-IsSafe challenged line (identity_proof sig) s e live h =
      proof-IsSafe sig s (subst (λ x. Stage x s) e h.stage) h
  msg-IsSafe idle line (identity_proof sig) s e live h = defer-IsSafe line (identity_proof sig) s h
  msg-IsSafe challenged line (identity claimed cert) s e live h =
      defer-IsSafe line (identity claimed cert) s h
  msg-IsSafe idle line (other m) s e live h = defer-IsSafe line (other m) s h
  msg-IsSafe challenged line (other m) s e live h = defer-IsSafe line (other m) s h

  line-IsSafe :
      (line : List ℕ) (s : Session M) → s.closed ≡ false → IsSafe s → IsSafe (on_line src line s)
  unfolding on_line
  line-IsSafe line s live h =
      elim (src.parse line)
        as (λ o. IsSafe (elim o [
          | skipped ↦ s
          | no_object ↦ close s
          | parsed m ↦ on_msg src s.auth_state line m s
        ])) [
          | skipped ↦ h
          | no_object ↦ close-IsSafe s h
          | parsed m ↦ msg-IsSafe s.auth_state line m s refl live h
        ]

  lines-IsSafe : (ls : List (List ℕ)) (s : Session M) → IsSafe s → IsSafe (on_lines src ls s)
  unfolding on_lines
  lines-IsSafe [] s h = h
  lines-IsSafe (l ∷ ls) s h =
      if_cases IsSafe s.closed (λ e. h)
        (λ e. lines-IsSafe ls (on_line src l s) (line-IsSafe l s e h))

  feed-IsSafe :
      (chunk : List ℕ) (r : Reader M) → IsSafe r.session → IsSafe (feed src chunk r).session
  unfolding feed
  feed-IsSafe chunk r h =
      let Safe : Reader M → Type 0 = λ x. IsSafe x.session in
      if_cases Safe r.session.closed (λ e. h)
        (λ e.
          if_cases Safe (length chunk == 0 || ltb max_frame_buf (length (r.buf ++ chunk)))
            (λ f. close-IsSafe r.session h)
            (λ f. lines-IsSafe (split (r.buf ++ chunk)).0 r.session h))

  all-IsSafe :
      (chunks : List (List ℕ)) (r : Reader M)
      → IsSafe r.session
      → IsSafe (feed_all src chunks r).session
  unfolding feed_all
  all-IsSafe [] r h = h
  all-IsSafe (c ∷ cs) r h = all-IsSafe cs (feed src c r) (feed-IsSafe c r h)

  -- Whatever a peer sends, nothing of it is handled before the peer proved its identity: the certificate
  -- has the claimed fingerprint, which is not this host's, and the nonce is signed by its key; all that is
  -- handled is handled under this identity. What waits for the proof on an open connection is bounded in
  -- number and bytes.
  pub feed_all-IsSafe : (chunks : List (List ℕ)) → IsSafe (feed_all src chunks new_reader).session
  feed_all-IsSafe chunks =
      all-IsSafe chunks new_reader
        (record { stage = refl; bounds = λ o. (omega arith, omega arith) })
