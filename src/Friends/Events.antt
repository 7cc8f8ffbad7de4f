-- ===== src/Friends/Events.antt =====
-- The moves of the frames, the commands and all events.
use lan_chat.Base.{
  ℕ, String, ◌≡◌, ◌⊎◌, refl, sym, ◌∙◌, inl, inr, Bool, true, false, not, ◌&&◌, ◌||◌, arith, str_eq,
  eq_iff, if◌then◌else◌, if_cases, ne_of_str_eq, Bool-cases,
}
use lan_chat.Base.Int.{ℤ}
use lan_chat.Held.Queue.{release_pending_first}
use lan_chat.Udp.Verify.{verify_udp_friend_packet, IsGenuine, verify_udp_friend_packet-IsGenuine}
use lan_chat.Friends.Types.{Daemon, World, Env, is_in, send, control}
use lan_chat.Friends.Ledger.{is_friend, is_pending, is_trusted, add_friend, unfriend, do_unfriend}
use lan_chat.Friends.Peers.{upsert_peer, expire_peers}
use lan_chat.Friends.Udp.{
  friend_request as request_packet, friend_accept as accept_packet, kind_name, Datagram,
  notify_accept, answered, given_name, handle_packet,
}
use lan_chat.Friends.Incoming.{
  Chat, Frame, Body, friend_accept, friend_reject, friend_remove, presence, room, room_file,
  attachment_request, file_frame, attachment_error, chat, unknown, with_rooms, handle_room,
  handle_room_file, handle_friend_accept, is_dropped, handle_friend_request, handle_chat,
  handle_error, handle_body, handle_mismatch, author, handle_incoming,
}
use lan_chat.Friends.Command.{
  Command, request, cancel, accept, reject, remove, set, set_online, of_rooms, command_request,
  set_friend, set_address, set_name, set_port, command_cancel, command_accept, command_set,
  command_reject, command_remove, handle_command, Event, command, packet, frame, hello, tick, step,
}
use lan_chat.Friends.Lists.{is_in-discard, is_in-add_to}
use lan_chat.Friends.Moves.{
  Alike, kept, gains, Outgoing, Move, still, befriend, part, Alike-then, Move-after, unfriend-loses,
  unfriend-Outgoing, Move-if, add_friend-gains, add_friend-kept, do_unfriend-Move, upsert_peer-Same,
}
use lan_chat.Friends.Steps.{
  weaken, Awaited, Nobody, nothing-Move, Same-Move, befriends, answered-Move, verified-Move,
}

module _ (w : World) (env : Env) (s : Daemon) where
  tcp_accept-Move :
      (pid : String) (f : Frame)
      → Move (Awaited pid s) Nobody s (handle_friend_accept w env pid f s)
  unfolding handle_friend_accept add_friend
  tcp_accept-Move pid f =
      Move-if (is_in pid s.request_outgoing)
        (λ h. befriends w env s pid f.address _ s _ h (λ k. (refl, refl)) refl refl refl)
        (λ h. nothing-Move w env s)

  -- The record of a peer whose request is held.
  known-Alike :
      (b : Bool) (pid address name : String)
      → is_pending pid s ≡ b
      → is_friend pid s ≡ false
      → Alike kept s (if b then s else add_friend env pid address name false s)
        × ((if b then s else add_friend env pid address name false s).request_outgoing
            ≡ s.request_outgoing)
  unfolding add_friend
  known-Alike true pid address name e n = ((λ k. (refl, refl)), refl)
  known-Alike false pid address name e n = (add_friend-kept env s pid address name n e, refl)

  tcp_request-Move :
      (pid : String) (c : Chat) (f : Frame)
      → is_friend pid s ≡ false
      → Move (Awaited pid s) Nobody s (handle_friend_request w env pid c f s)
  unfolding handle_friend_request notify_accept add_friend
  tcp_request-Move pid c f n =
      Move-if (not s.accepts) (λ e. nothing-Move w env s)
        (λ e.
          Move-if (is_in pid s.request_outgoing)
            (λ h.
              befriends w env s pid f.address (given_name w f.from_name pid) (answered pid s) _ h
                (λ k. (refl, refl)) refl refl refl)
            (λ h.
              let known =
                known-Alike (is_pending pid s) pid f.address (given_name w f.from_name pid) refl
                  n in
              Same-Move w env s _ (record { alike = known.0; outgoing = known.1 })))

  chat-Move :
      (pid : String) (c : Chat) (f : Frame)
      → Move (Awaited pid s) Nobody s (handle_chat w env pid c f s)
  unfolding handle_chat
  chat-Move pid c f =
      Move-if (is_dropped w env pid c s) (λ e. nothing-Move w env s)
        (λ e.
          Move-if (c.friend_request && not (is_friend pid s))
            (λ h. tcp_request-Move pid c f (ground (arith, h)))
            (λ h. still (λ k. (refl, refl)) (λ k i. inl i)))

  body-Move :
      (verified pid : String) (f : Frame) (b : Body)
      → Move (Awaited pid s) Nobody s (handle_body w env verified pid f b s)
  unfolding handle_body handle_room handle_room_file with_rooms handle_error
  body-Move verified pid f friend_accept = tcp_accept-Move pid f
  body-Move verified pid f friend_reject = answered-Move w env s pid
  body-Move verified pid f friend_remove =
      Move-if (str_eq pid "") (λ e. nothing-Move w env s) (λ e. do_unfriend-Move env s w pid)
  body-Move verified pid f presence = nothing-Move w env s
  body-Move verified pid f (room m) = still (λ k. (refl, refl)) (λ k i. inl i)
  body-Move verified pid f (room_file m) = still (λ k. (refl, refl)) (λ k i. inl i)
  body-Move verified pid f (attachment_request file_id mid) =
      Move-if (not (str_eq pid "") && is_trusted pid s)
        (λ e. still (λ k. (refl, refl)) (λ k i. inl i)) (λ e. nothing-Move w env s)
  body-Move verified pid f (file_frame file_id mid) = still (λ k. (refl, refl)) (λ k i. inl i)
  body-Move verified pid f (attachment_error file_id mid text) =
      Move-if (env.downloading file_id pid) (λ e. still (λ k. (refl, refl)) (λ k i. inl i))
        (λ e.
          Move-if ((str_eq text "not found" || str_eq text "file missing") && not (str_eq mid ""))
            (λ h. still (λ k. (refl, refl)) (λ k i. inl i)) (λ h. nothing-Move w env s))
  body-Move verified pid f (chat c) = chat-Move pid c f
  body-Move verified pid f unknown = nothing-Move w env s

  mismatch-Move :
      {May : String → Type 0} (verified : String) (f : Frame) (b : Body)
      → Move May Nobody s (handle_mismatch w env verified f b s)
  unfolding handle_mismatch handle_room handle_room_file with_rooms
  mismatch-Move verified f (room m) = still (λ k. (refl, refl)) (λ k i. inl i)
  mismatch-Move verified f (room_file m) = still (λ k. (refl, refl)) (λ k i. inl i)
  mismatch-Move verified f _ = nothing-Move w env s

  pub incoming-Move :
      (f : Frame) (verified : String)
      → Move (Awaited (author verified f) s) Nobody s (handle_incoming w env f verified s)
  unfolding handle_incoming
  incoming-Move f verified =
      Move-if (not (str_eq verified "") && (not (str_eq f.from "") && not (str_eq f.from verified)))
        (λ e. mismatch-Move verified f f.body)
        (λ e. body-Move verified (author verified f) f f.body)

-- Whom a command asks, and whom it befriends.
abbrev pub Asks : World → Command → String → Type 0
Asks w (request to) pid = to ≡ pid
Asks w (set id address name port) pid = w.lib.strip id ≡ pid
Asks w _ pid = ⊥

abbrev pub Befriends : World → Command → String → Type 0
Befriends w (accept id) pid = id ≡ pid
Befriends w (set id address name port) pid = w.lib.strip id ≡ pid
Befriends w _ pid = ⊥

module _ (w : World) (env : Env) where
  request_to :
      (to : String) (s : Daemon)
      → Alike kept s (command_request w env to s)
        × Outgoing (λ k. to ≡ k) s (command_request w env to s)
  unfolding command_request
  request_to to s =
      if_cases (λ x. Alike kept s x × Outgoing (λ k. to ≡ k) s x) (not (str_eq to "") && env.udp to)
        (λ e. (
          λ k. (refl, refl),
          λ k i. elim (Bool-cases (is_in k s.request_outgoing)) [
            | inl old ↦ inl old
            | inr new ↦
                let added = is_in-add_to k to s.request_outgoing in
                inr ((eq_iff to k).0 (ground (arith, added, i, new)))
          ],
        ))
        (λ e. (λ k. (refl, refl), λ k i. inl i))

  then_request :
      (pid : String) (s x : Daemon)
      → Alike (gains pid) s x
      → x.request_outgoing ≡ s.request_outgoing
      → Move (λ k. pid ≡ k) (λ k. pid ≡ k) s (command_request w env pid x)
  then_request pid s x a o =
      befriend pid refl
        (Alike-then (gains pid) s x (command_request w env pid x) a (request_to pid x).0)
        (λ k i. elim ((request_to pid x).1 k i) [ inl old ↦ inl (rw⁻¹ o old) | inr new ↦ inr new ])

  set_friend-Move :
      (pid addr pname : String) (pport : ℕ) (s : Daemon)
      → Move (λ k. pid ≡ k) (λ k. pid ≡ k) s (set_friend w env pid addr pname pport s)
  unfolding set_friend add_friend
  set_friend-Move pid addr pname pport s =
      let befriended = add_friend env pid addr pname true s in
      let known = upsert_peer-Same env pid pname addr pport befriended in
      let gained = add_friend-gains env s pid addr pname in
      if_cases (λ x. Move (λ k. pid ≡ k) (λ k. pid ≡ k) s (command_request w env pid x))
        (str_eq addr "") (λ e. then_request pid s befriended gained refl)
        (λ e.
          let noted = upsert_peer env pid pname addr pport befriended in
          then_request pid s noted (Alike-then (gains pid) s befriended noted gained known.alike)
            known.outgoing)

  set-Move :
      (id address name : String) (port : ℕ) (s : Daemon)
      → Move
          (λ k. w.lib.strip id ≡ k)
          (λ k. w.lib.strip id ≡ k)
          s
          (command_set w env id address name port s)
  unfolding command_set
  set-Move id address name port s =
      Move-if (str_eq (w.lib.strip id) "") (λ e. nothing-Move w env s)
        (λ e.
          let pid = w.lib.strip id in
          set_friend-Move pid (set_address address pid s) (set_name name pid s)
            (set_port port pid s) s)

  pub command-Move :
      (c : Command) (s : Daemon) → Move (Befriends w c) (Asks w c) s (handle_command w env c s)
  unfolding handle_command command_cancel command_accept command_reject command_remove with_rooms
      unfriend do_unfriend notify_accept add_friend
  command-Move (request to) s = still (request_to to s).0 (request_to to s).1
  command-Move (cancel pid) s =
      Move-if (not (str_eq pid "") && not (is_friend pid s))
        (λ e.
          Move-if (env.udp pid)
            (λ u. still (λ k. (refl, refl)) (λ k i. inl (is_in-discard k pid s.request_outgoing i)))
            (λ u.
              still (λ k. (refl, refl)) (λ k i. inl (is_in-discard k pid s.request_outgoing i))))
        (λ e. nothing-Move w env s)
  command-Move (accept pid) s = befriend pid refl (add_friend-gains env s pid _ _) (λ k i. inl i)
  command-Move (reject pid) s =
      if_cases
        (λ x. Move Nobody Nobody s (
          unfriend env pid (record (send (control "friendReject" pid) x) {
            pending = (release_pending_first pid s.pending).1;
          })))
        (env.udp pid) (λ e. part pid (unfriend-loses env s pid) (unfriend-Outgoing env s _ pid))
        (λ e. part pid (unfriend-loses env s pid) (unfriend-Outgoing env s _ pid))
  command-Move (remove pid) s =
      Move-if (str_eq pid "") (λ e. do_unfriend-Move env s w pid)
        (λ e. part pid (unfriend-loses env s pid) (unfriend-Outgoing env s _ pid))
  command-Move (set id address name port) s = set-Move id address name port s
  command-Move (set_online online) s = still (λ k. (refl, refl)) (λ k i. inl i)
  command-Move (of_rooms c) s = still (λ k. (refl, refl)) (λ k i. inl i)

-- Who may become a friend by an event: one that the user names, or one whose answer is awaited and
-- comes in a genuine packet or over its own connection.
abbrev pub Consents : World → Event → Daemon → String → Type 0
Consents w (command env c) s pid = Befriends w c pid
Consents w (packet env d) s pid =
    (is_in pid s.request_outgoing ≡ true)
    × (d.packet.id ≡ pid)
    × ((d.kind ≡ request_packet) ⊎ (d.kind ≡ accept_packet))
    × ((iat : ℤ) × (exp : ℤ) × IsGenuine w.printer w.crypto env.now_ms (kind_name d.kind) d.packet
          iat exp)
Consents w (frame env f verified) s pid =
    (is_in pid s.request_outgoing ≡ true)
    × (author verified f ≡ pid)
    × (str_eq verified "" ≡ false → verified ≡ pid)
Consents w _ s pid = ⊥

abbrev pub AsksBy : World → Event → String → Type 0
AsksBy w (command env c) pid = Asks w c pid
AsksBy w _ pid = ⊥

module _ (w : World) where
  packet-Move :
      (env : Env) (d : Datagram) (s : Daemon)
      → Move (Consents w (packet env d) s) Nobody s (handle_packet w env d s)
  unfolding handle_packet
  packet-Move env d s =
      let out =
        verify_udp_friend_packet w.printer w.crypto env.now_ms env.saves (kind_name d.kind) d.packet
          s.seen in
      let s' = record s { seen = out.1 } in
      Move-if (str_eq out.0 "") (λ e. still (λ k. (refl, refl)) (λ k i. inl i))
        (λ e.
          let found =
            verify_udp_friend_packet-IsGenuine w.printer w.crypto env.now_ms env.saves
              (kind_name d.kind) d.packet s.seen (ne_of_str_eq out.0 "" e) in
          Move-after s s' _ (λ k. (refl, refl)) (λ k i. inl i)
            (weaken (λ k a. (a.0.1, sym found.0 ∙ a.0.0, a.1, found.1))
              (verified-Move w env s' out.0 d d.kind)))

  pub step-Move : (e : Event) (s : Daemon) → Move (Consents w e s) (AsksBy w e) s (step w e s)
  unfolding step expire_peers
  step-Move (command env c) s = command-Move w env c s
  step-Move (packet env d) s = packet-Move env d s
  step-Move (frame env f verified) s =
      weaken (λ k a. (a.1, a.0, λ n. ground (arith, n, a.0))) (incoming-Move w env s f verified)
  step-Move (hello env pid name address port) s =
      Same-Move w env s _ (upsert_peer-Same env pid name address port s)
  step-Move (tick env) s = still (λ k. (refl, refl)) (λ k i. inl i)
