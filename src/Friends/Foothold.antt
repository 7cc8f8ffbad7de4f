-- ===== src/Friends/Foothold.antt =====
-- What a stranger gains by a friend request over a connection.
use lan_chat.Base.{
  String, ◌≡◌, refl, ap, ◌∙◌, inl, inr, Option-cases, if_cases, true, false, not, ◌&&◌, List, [],
  ◌∷◌, arith, str_eq, eq_refl,
}
use lan_chat.History.Store.{append_history}
use lan_chat.Rooms.Types.{get_room}
use lan_chat.Friends.Types.{Friend, Daemon, World, Env, is_in}
use lan_chat.Friends.Ledger.{
  is_friend, is_pending, is_trusted, is_friend_in, is_pending_in, is_listed, add_friend, put_friend,
}
use lan_chat.Held.Queue.{hold_friend_request}
use lan_chat.Friends.Udp.{given_name}
use lan_chat.Friends.Incoming.{
  Chat, Frame, is_blank, is_outsider, is_dropped, message_of, with_mid, handle_friend_request,
  handle_chat,
}

is_listed-put_friend :
    (new : Friend) (fs : List Friend) → is_listed new.id (put_friend new fs) ≡ true
unfolding is_listed put_friend
is_listed-put_friend new [] = ground (arith, eq_refl new.id)
is_listed-put_friend new (f ∷ fs) = ground (arith, eq_refl new.id, is_listed-put_friend new fs)

unlisted :
    (k : String) (fs : List Friend)
    → is_listed k fs ≡ false
    → (is_friend_in k fs ≡ false) × (is_pending_in k fs ≡ false)
unfolding is_listed is_friend_in is_pending_in
unlisted k [] n = (refl, refl)
unlisted k (f ∷ fs) n =
    let rest = unlisted k fs in (ground (arith, n, rest), ground (arith, n, rest))

module _ (w : World) (env : Env) where
  -- A direct message with a text or an attachment, and no id.
  pub record IsPlain (c : Chat) : Type 0 where
    pub no_mid : str_eq c.mid "" ≡ true
    pub no_room : str_eq c.room "" ≡ true
    pub filled : is_blank w env c ≡ false

  is_outsider-plain :
      (pid : String) (c : Chat) (s : Daemon)
      → str_eq c.room "" ≡ true
      → is_outsider w env pid c s ≡ false
  unfolding is_outsider
  is_outsider-plain pid c s e = elim (Option-cases (get_room c.room s.rooms)) [
    | inl f ↦ rw (is_outsider, f, e) refl
    | inr (r, f) ↦ rw (is_outsider, f, e) refl
  ]

  is_dropped-plain :
      (pid : String) (c : Chat) (s : Daemon)
      → IsPlain c
      → is_dropped w env pid c s ≡ (not c.friend_request && not (is_trusted pid s))
  unfolding is_dropped
  is_dropped-plain pid c s h =
      let outsider = is_outsider-plain pid c s h.no_room in
      let mid = h.no_mid in let filled = h.filled in ground (arith, outsider, mid, filled)

  -- The daemon after a stranger's request that it holds.
  held-request :
      (pid : String) (r : Chat) (f : Frame) (s : Daemon)
      → is_listed pid s.friends ≡ false
      → s.online ≡ true
      → s.accepts ≡ true
      → is_in pid s.request_outgoing ≡ false
      → IsPlain r
      → r.friend_request ≡ true
      → (is_trusted pid (handle_chat w env pid r f s) ≡ true)
        × ((handle_chat w env pid r f s).store ≡ s.store)
  unfolding handle_chat handle_friend_request add_friend
  held-request pid r f s n on acc out h fr =
      let Held : Daemon → Type 0 = λ x. (is_trusted pid x ≡ true) × (x.store ≡ s.store) in
      let stranger = unlisted pid s.friends n in
      let new : Friend = record {
        id = pid;
        address = f.address;
        name = given_name w f.from_name pid;
        confirmed = false;
      } in
      if_cases Held (is_dropped w env pid r s)
        (λ e. absurd (ground (arith, e, is_dropped-plain pid r s h, fr)))
        (λ e.
          if_cases Held (r.friend_request && not (is_friend pid s))
            (λ g.
              if_cases Held (not s.accepts) (λ x. absurd (ground (arith, x, acc)))
                (λ x.
                  if_cases Held (is_in pid s.request_outgoing)
                    (λ y. absurd (ground (arith, y, out)))
                    (λ y.
                      if_cases
                        (λ x. Held (record x {
                          pending =
                              (hold_friend_request w.json_bytes pid
                                (with_mid w env (message_of w env pid r)) x.pending).1;
                        }))
                        (is_pending pid s) (λ z. absurd (ground (arith, z, stranger.1)))
                        (λ z. (ground (arith, on, is_listed-put_friend new s.friends), refl)))))
            (λ g. absurd (ground (arith, g, fr, stranger.0))))

  -- On a daemon that is online, takes requests and did not ask the stranger, a direct message of the
  -- stranger changes nothing; but once a friend request of the stranger has come, which the user has not
  -- answered, such a message goes into the history.
  pub foothold :
      (pid : String) (r c : Chat) (f g : Frame) (s : Daemon)
      → is_listed pid s.friends ≡ false
      → s.online ≡ true
      → s.accepts ≡ true
      → is_in pid s.request_outgoing ≡ false
      → IsPlain r
      → r.friend_request ≡ true
      → IsPlain c
      → c.friend_request ≡ false
      → (handle_chat w env pid c g s ≡ s)
        × ((handle_chat w env pid c g (handle_chat w env pid r f s)).store
            ≡ append_history w.lib env.hist (message_of w env pid c) s.store)
  unfolding handle_chat
  foothold pid r c f g s n on acc out hr fr hc fc =
      let t = handle_chat w env pid r f s in
      let held = held-request pid r f s n on acc out hr fr in
      let after : (handle_chat w env pid c g t).store
          ≡ append_history w.lib env.hist (message_of w env pid c) t.store =
        appended t held.0 in
      (
        if_cases (λ x. x ≡ s) (is_dropped w env pid c s) (λ e. refl)
            (λ e. absurd (ground (arith, e, is_dropped-plain pid c s hc, fc, n))),
        after ∙ ap (append_history w.lib env.hist (message_of w env pid c)) held.1,
      )
    where
      appended :
          (t : Daemon)
          → is_trusted pid t ≡ true
          → (handle_chat w env pid c g t).store
            ≡ append_history w.lib env.hist (message_of w env pid c) t.store
      appended t e =
          let Put : Daemon → Type 0 =
            λ x. x.store ≡ append_history w.lib env.hist (message_of w env pid c) t.store in
          if_cases Put (is_dropped w env pid c t)
            (λ d. absurd (ground (arith, d, is_dropped-plain pid c t hc, e, fc)))
            (λ d.
              if_cases Put (c.friend_request && not (is_friend pid t))
                (λ q. absurd (ground (arith, q, fc))) (λ q. refl))
