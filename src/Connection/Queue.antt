-- ===== src/Connection/Queue.antt =====
-- What a flush of the queue keeps, and which of two sockets stays.
use Prim.Native.Nat.{Ordering}
use Prim.Native.String.{compare}
use lan_chat.Base.{
  ℕ, String, ◌≡◌, ◌≢◌, ◌⊎◌, refl, sym, ap, ◌∙◌, Bool, true, false, not, ◌&&◌, some, List, [], ◌∷◌,
  ◌++◌, arith, str_eq, eq_iff, eq_refl, if◌then◌else◌, if_cases, inl, inr, All, ◌==◌,
}
use lan_chat.Friends.Types.{is_in}
use lan_chat.Connection.Active.{
  Payload, Conn, lesser, is_sent, noted, flush, flush_locked, maybe_set_active, drop_conn,
}

module _ (sends : Payload → Bool) where
  emptied :
      (ps : List Payload) (sent : List String)
      → All (λ p. sends p ≡ true) ps
      → (flush sends ps sent).0 ≡ []
  unfolding flush
  emptied [] sent h = refl
  emptied (p ∷ ps) sent h =
      ground (arith, h.0, emptied ps (if is_sent p sent then sent else noted p sent) h.1)

  is_sent-noted :
      (p q : Payload) (sent : List String)
      → q.mid ≢ p.mid
      → is_sent p sent ≡ false
      → is_sent p (noted q sent) ≡ false
  unfolding is_sent is_in
  is_sent-noted p q sent n h = ground (arith, h, eq_iff q.mid p.mid, n)

  flush_failed :
      (ps : List Payload) (p : Payload) (rest : List Payload) (sent : List String)
      → All (λ q. (sends q ≡ true) × (q.mid ≢ p.mid)) ps
      → sends p ≡ false
      → is_sent p sent ≡ false
      → (flush sends (ps ++ p ∷ rest) sent).0 ≡ p ∷ []
  unfolding flush
  flush_failed [] p rest sent h f n = ground (arith, f, n)
  flush_failed (q ∷ ps) p rest sent h f n =
      let sent' = if is_sent q sent then sent else noted q sent in
      let n' : is_sent p sent' ≡ false =
        if_cases (λ x. is_sent p x ≡ false) (is_sent q sent) (λ e. n)
          (λ e. is_sent-noted p q sent h.0.1 n) in
      ground (arith, h.0.0, flush_failed ps p rest sent' h.1 f n')

  -- A flush whose write of a message fails keeps that message alone: what the queue has after it is lost.
  pub flush_locked-forgets :
      (s : ℕ) (before : List Payload) (p : Payload) (rest : List Payload) (c : Conn)
      → All (λ q. (sends q ≡ true) × (q.mid ≢ p.mid)) before
      → sends p ≡ false
      → is_sent p c.sent_mids ≡ false
      → (flush_locked sends (record c { sock = some s; hold = before ++ p ∷ rest })).hold ≡ p ∷ []
  unfolding flush_locked
  flush_locked-forgets s before p rest c h f n = flush_failed before p rest c.sent_mids h f n

  -- A flush whose writes succeed leaves nothing in the queue.
  pub flush_locked-empties :
      (s : ℕ) (c : Conn)
      → All (λ p. sends p ≡ true) c.hold
      → (flush_locked sends (record c { sock = some s })).hold ≡ []
  unfolding flush_locked
  flush_locked-empties s c h = emptied c.hold c.sent_mids h

lesser-cases : (a b : String) → (lesser a b ≡ a) ⊎ (lesser a b ≡ b)
lesser-cases a b = go (compare a b)
  where
    go :
        (o : Ordering)
        → (elim o [ Ordering.gt ↦ b | _ ↦ a ] ≡ a) ⊎ (elim o [ Ordering.gt ↦ b | _ ↦ a ] ≡ b)
    go Ordering.lt = inl refl
    go Ordering.eq = inl refl
    go Ordering.gt = inr refl

module _ (sends : Payload → Bool) (host pid : String) where
  abbrev Has : ℕ → String → Bool × Conn → Type 0
  Has s initiator o = (o.1.sock ≡ some s) × (o.1.initiator ≡ initiator)

  -- The socket of the keeper displaces the other.
  displaces :
      (x y : ℕ) (i j : String) (c : Conn)
      → x == y ≡ false
      → lesser host pid ≡ j
      → Has y j (maybe_set_active sends host pid y j (record c { sock = some x; initiator = i }))
  unfolding maybe_set_active flush_locked
  displaces x y i j c n k =
      let keeps : str_eq j (lesser host pid) ≡ true = rw k (eq_refl j) in
      if_cases (Has y j) (x == y) (λ e. absurd (ground (arith, e, n)))
        (λ e.
          if_cases (Has y j) (str_eq i (lesser host pid) && not (str_eq j (lesser host pid)))
            (λ f. absurd (ground (arith, f, keeps)))
            (λ f.
              if_cases (Has y j)
                (not (str_eq i (lesser host pid)) && not (str_eq j (lesser host pid)))
                (λ g. absurd (ground (arith, g, keeps))) (λ g. (refl, refl))))

  -- The socket of the keeper stays.
  stays :
      (x y : ℕ) (i j : String) (c : Conn)
      → lesser host pid ≡ i
      → str_eq j i ≡ false
      → Has x i (maybe_set_active sends host pid y j (record c { sock = some x; initiator = i }))
  unfolding maybe_set_active flush_locked
  stays x y i j c k n =
      let keeps : str_eq i (lesser host pid) ≡ true = rw k (eq_refl i) in
      let other : str_eq j (lesser host pid) ≡ false = rw k n in
      if_cases (Has x i) (x == y) (λ e. (refl, refl))
        (λ e.
          if_cases (Has x i) (str_eq i (lesser host pid) && not (str_eq j (lesser host pid)))
            (λ f. (refl, refl)) (λ f. absurd (ground (arith, f, keeps, other))))

  -- Of two sockets between two hosts that are offered one after the other, in either order, the one that
  -- the host with the lesser id dialed is the active one.
  pub maybe_set_active-converges :
      (x y : ℕ) (c : Conn)
      → x == y ≡ false
      → host ≢ pid
      → let keeper = lesser host pid in
        let kept = if str_eq keeper host then x else y in
        let first = (maybe_set_active sends host pid x host (drop_conn c)).1 in
        let second = (maybe_set_active sends host pid y pid (drop_conn c)).1 in
        Has kept keeper (maybe_set_active sends host pid y pid first)
        × Has kept keeper (maybe_set_active sends host pid x host second)
  unfolding maybe_set_active flush_locked drop_conn
  maybe_set_active-converges x y c n ne =
      let first = flush_locked sends (record c { sock = some x; initiator = host }) in
      let second = flush_locked sends (record c { sock = some y; initiator = pid }) in
      elim (lesser-cases host pid) [
        | inl k ↦
            let q : (if str_eq (lesser host pid) host then x else y) ≡ x =
              ground (arith, k, eq_refl host) in
            let a = stays x y host pid first k (ground (arith, eq_iff pid host, ne)) in
            let b = displaces y x pid host second (ground (arith, n)) k in
            (
              (a.0 ∙ sym (ap (λ z. some z) q), a.1 ∙ sym k),
              (b.0 ∙ sym (ap (λ z. some z) q), b.1 ∙ sym k),
            )
        | inr k ↦
            let q : (if str_eq (lesser host pid) host then x else y) ≡ y =
              ground (arith, k, eq_iff pid host, ne) in
            let a = displaces x y host pid first n k in
            let b = stays y x pid host second k (ground (arith, eq_iff host pid, ne)) in
            (
              (a.0 ∙ sym (ap (λ z. some z) q), a.1 ∙ sym k),
              (b.0 ∙ sym (ap (λ z. some z) q), b.1 ∙ sym k),
            )
      ]
