-- ===== src/Connection/Retry.antt =====
-- A peer that cannot be reached is dialed again.
use lan_chat.Base.{
  ℕ, ◌+◌, ◌≤◌, ◌≡◌, ◌≢◌, refl, String, Bool, true, false, not, ◌&&◌, Option, none, some, List, [],
  ◌∷◌, arith, str_eq, eq_iff, if_cases, Bool-cases, Option-cases, inl, inr, if◌then◌else◌,
}
use lan_chat.Connection.Active.{Payload, Conn, maybe_set_active, drop_conn, flush_locked}
use lan_chat.Connection.Dial.{Link, first_backoff, reconnect_max_backoff, is_due, dial, dial_round}

is_due-next_try : (now : ℕ) (l : Link) → is_due now l ≡ true → l.next_try ≤ now
unfolding is_due
is_due-next_try now l e = elim (Option-cases l.conn.sock) [
  | inl gone ↦ ground (arith, gone, e)
  | inr (s, up) ↦ absurd (ground (arith, up, e))
]

next_try-is_due : (now : ℕ) (l : Link) → l.conn.sock ≡ none → l.next_try ≤ now → is_due now l ≡ true
unfolding is_due
next_try-is_due now l gone h = rw gone (ground (arith, h))

-- A round at its time, with the socket that a dial would get and whether our identity could be sent;
-- or the socket drops.
pub data Event : Type 0 where
  round : ℕ → Option ℕ → Bool → Event
  drops : Event

-- The link after the events, with the time of the last round that dialed.
module _ (sends : Payload → Bool) (host pid : String) where
  unfoldable pub link_step : Event → Link × ℕ → Link × ℕ
  unfolding dial_round drop_conn
  link_step (round now socket announces) (l, last) =
      (dial_round sends host pid true now socket announces l, if is_due now l then now else last)
  link_step drops (l, last) = (record l { conn = drop_conn l.conn }, last)

  unfoldable pub link_run : List Event → Link × ℕ → Link × ℕ
  unfolding link_step
  link_run [] x = x
  link_run (e ∷ es) x = link_run es (link_step e x)

  -- The next try is no later than the greatest pause after the last.
  pub record IsPaced (x : Link × ℕ) : Type 0 where
    pub pause : x.0.next_try ≤ x.1 + reconnect_max_backoff

  dial-IsPaced :
      (now last : ℕ) (socket : Option ℕ) (announces : Bool) (l : Link)
      → l.next_try ≤ now
      → (dial sends host pid now socket announces l).next_try ≤ now + reconnect_max_backoff
  unfolding dial
  dial-IsPaced now last none announces l h = omega arith
  dial-IsPaced now last (some s) announces l h =
      if_cases (λ (x : Link). x.next_try ≤ now + reconnect_max_backoff)
        (announces && (maybe_set_active sends host pid s host l.conn).0) (λ _. omega arith)
        (λ _. omega (arith, h))

  link_step-IsPaced : pid ≢ host → (e : Event) (x : Link × ℕ) → IsPaced x → IsPaced (link_step e x)
  unfolding link_step dial_round
  link_step-IsPaced other (round now socket announces) (l, last) h =
      elim (Bool-cases (is_due now l)) [
        | inl due ↦ record {
          pause = rw due (
              if_cases P (true && not (str_eq pid host) && true)
                (λ _. dial-IsPaced now last socket announces l (due_now due))
                (λ _. omega (arith, due_now due)));
        }
        | inr idle ↦ record {
          pause = rw idle (
              if_cases Q (true && not (str_eq pid host) && false) (λ t. absurd (ground (arith, t)))
                (λ _. h.pause));
        }
      ]
    where
      P : Link → Type 0
      P x = x.next_try ≤ now + reconnect_max_backoff

      Q : Link → Type 0
      Q x = x.next_try ≤ last + reconnect_max_backoff

      due_now : is_due now l ≡ true → l.next_try ≤ now
      due_now e = is_due-next_try now l e
  link_step-IsPaced other drops (l, last) h = record { pause = h.pause }

  link_run-IsPaced :
      pid ≢ host → (es : List Event) (x : Link × ℕ) → IsPaced x → IsPaced (link_run es x)
  unfolding link_run
  link_run-IsPaced other [] x h = h
  link_run-IsPaced other (e ∷ es) x h =
      link_run-IsPaced other es (link_step e x) (link_step-IsPaced other e x h)

  dial-sock :
      (now s : ℕ) (l : Link)
      → l.conn.sock ≡ none
      → (dial sends host pid now (some s) true l).conn.sock ≡ some s
  unfolding dial maybe_set_active flush_locked
  dial-sock now s l e = rw (maybe_set_active, e) refl

  -- After any rounds and drops, a peer without a socket that is reachable is connected by every round that
  -- is sixteen seconds or more after the last dial.
  pub link_run-sock :
      pid ≢ host
      → (es : List Event) (c : Conn) (now s : ℕ)
      → let (l, last) =
          link_run es (record { conn = c; next_try = 0; backoff = first_backoff }, 0) in
        l.conn.sock ≡ none
        → last + reconnect_max_backoff ≤ now
        → (dial_round sends host pid true now (some s) true l).conn.sock ≡ some s
  unfolding dial_round
  link_run-sock other es c now s gone late =
      if_cases (λ (x : Link). x.conn.sock ≡ some s)
        (true && not (str_eq pid host) && is_due now l.0) (λ _. dial-sock now s l.0 gone)
        (λ e. absurd (ground (arith, e, due gone late, other, eq_iff pid host)))
    where
      l : Link × ℕ
      l = link_run es (record { conn = c; next_try = 0; backoff = first_backoff }, 0)

      due : l.0.conn.sock ≡ none → l.1 + reconnect_max_backoff ≤ now → is_due now l.0 ≡ true
      due gone late = next_try-is_due now l.0 gone (omega (arith, paced.pause, late))
        where
          paced : IsPaced l
          paced =
              link_run-IsPaced other es
                (record { conn = c; next_try = 0; backoff = first_backoff }, 0)
                (record { pause = omega arith })
