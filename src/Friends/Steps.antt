-- ===== src/Friends/Steps.antt =====
-- Each event makes a move: who may become a friend by it, and who is asked.
use lan_chat.Base.{String, ◌≡◌, ◌⊎◌, refl, inl, inr, true, not}
use lan_chat.Friends.Types.{Daemon, World, Env, is_in, discard}
use lan_chat.Friends.Ledger.{add_friend, unfriend_if_unconfirmed}
use lan_chat.Friends.Peers.{upsert_peer}
use lan_chat.Friends.Udp.{
  PacketKind, friend_request, friend_accept, friend_cancel, friend_reject, friend_unfriend,
  Datagram, notify_accept, answered, given_name, handle_udp_friend_request,
  handle_udp_friend_accept, handle_udp_friend_cancel, handle_udp_friend_reject, handle_verified,
}
use lan_chat.Friends.Lists.{is_in-discard}
use lan_chat.Friends.Moves.{
  Alike, kept, gains, Outgoing, Move, still, befriend, part, Alike-trans, Move-after, Move-if,
  add_friend-gains, do_unfriend-Move, unfriend_if_unconfirmed-Move, Same, upsert_peer-Same,
}

pub weaken :
    {May May' Asks : String → Type 0} {s s' : Daemon}
    → ((k : String) → May k → May' k)
    → Move May Asks s s'
    → Move May' Asks s s'
weaken f (still a o) = still a o
weaken f (befriend pid m a o) = befriend pid (f pid m) a o
weaken f (part pid a o) = part pid a o

-- A peer whose answer is awaited.
abbrev pub Awaited : String → Daemon → String → Type 0
Awaited x s pid = (x ≡ pid) × (is_in pid s.request_outgoing ≡ true)

abbrev pub Nobody : String → Type 0
Nobody pid = ⊥

module _ (w : World) (env : Env) (s : Daemon) where
  pub nothing-Move : {May Asks : String → Type 0} → Move May Asks s s
  nothing-Move = still (λ k. (refl, refl)) (λ k h. inl h)

  pub Same-Move : {May Asks : String → Type 0} (s' : Daemon) → Same s s' → Move May Asks s s'
  Same-Move s' h = still h.alike (λ k e. inl (rw⁻¹ h.outgoing e))

  -- The call that befriends a peer on an answer.
  pub befriends :
      (pid address name : String) (x s' : Daemon)
      → is_in pid s.request_outgoing ≡ true
      → Alike kept s x
      → s'.friends ≡ (add_friend env pid address name true x).friends
      → s'.ledger ≡ (add_friend env pid address name true x).ledger
      → s'.request_outgoing ≡ discard pid s.request_outgoing
      → Move (Awaited pid s) Nobody s s'
  befriends pid address name x s' wanted alike fs led out =
      befriend pid (refl, wanted)
        (rw (fs, led)
          (Alike-trans (gains pid) s x (add_friend env pid address name true x) alike
            (add_friend-gains env x pid address name)))
        (λ k h. inl (is_in-discard k pid s.request_outgoing (rw⁻¹ out h)))

  still_answered : (Asks : String → Type 0) (pid : String) → Outgoing Asks s (answered pid s)
  still_answered Asks pid k h = inl (is_in-discard k pid s.request_outgoing h)

  pub answered-Move :
      {May Asks : String → Type 0} (pid : String)
      → Move May Asks s (unfriend_if_unconfirmed env pid (answered pid s))
  answered-Move pid =
      Move-after s (answered pid s) (unfriend_if_unconfirmed env pid (answered pid s))
        (λ k. (refl, refl)) (still_answered _ pid)
        (unfriend_if_unconfirmed-Move env (answered pid s) pid)

  request-Move :
      (pid : String) (d : Datagram)
      → Move (Awaited pid s) Nobody s (handle_udp_friend_request w env pid d s)
  unfolding handle_udp_friend_request notify_accept add_friend
  request-Move pid d =
      Move-if (not s.accepts) (λ e. nothing-Move)
        (λ e.
          Move-if (is_in pid s.request_outgoing)
            (λ f.
              let name = given_name w d.name pid in
              let known = upsert_peer-Same env pid name d.address d.port (answered pid s) in
              befriends pid d.address name
                (upsert_peer env pid name d.address d.port (answered pid s)) _ f known.alike refl
                refl known.outgoing)
            (λ f.
              Same-Move _ (upsert_peer-Same env pid (given_name w d.name pid) d.address d.port s)))

  accept-Move :
      (pid : String) (d : Datagram)
      → Move (Awaited pid s) Nobody s (handle_udp_friend_accept w env pid d s)
  unfolding handle_udp_friend_accept add_friend
  accept-Move pid d =
      Move-if (is_in pid s.request_outgoing)
        (λ f. befriends pid d.address _ s _ f (λ k. (refl, refl)) refl refl refl)
        (λ f. nothing-Move)

  pub verified-Move :
      (pid : String) (d : Datagram) (kind : PacketKind)
      → Move
          (λ k. Awaited pid s k × ((kind ≡ friend_request) ⊎ (kind ≡ friend_accept)))
          Nobody
          s
          (handle_verified w env pid d kind s)
  unfolding handle_verified handle_udp_friend_cancel handle_udp_friend_reject
  verified-Move pid d friend_request = weaken (λ k a. (a, inl refl)) (request-Move pid d)
  verified-Move pid d friend_accept = weaken (λ k a. (a, inr refl)) (accept-Move pid d)
  verified-Move pid d friend_cancel =
      Move-after s _ _ (λ k. (refl, refl)) (λ k h. inl h) (unfriend_if_unconfirmed-Move env _ pid)
  verified-Move pid d friend_reject = answered-Move pid
  verified-Move pid d friend_unfriend = do_unfriend-Move env s w pid
