-- ===== src/Friends/Consent.antt =====
-- Nobody becomes a friend whom the user did not name.
use lan_chat.Base.{
  String, ◌≡◌, ◌⊎◌, inl, inr, true, false, List, [], ◌∷◌, arith, str_eq, eq_iff, eq_refl, if_cases,
  Bool-cases, All,
}
use lan_chat.Dict.{has, has-erase}
use lan_chat.Friends.Types.{Daemon, World, Env, is_in}
use lan_chat.Friends.Ledger.{is_friend, do_unfriend, unfriend}
use lan_chat.Friends.Command.{remove, command_remove, handle_command, Event, command, step, run}
use lan_chat.Friends.Lists.{is_in-discard_self, is_friend_in-keep}
use lan_chat.Friends.Moves.{still, befriend, part}
use lan_chat.Friends.Events.{Befriends, Consents, AsksBy, step-Move}

-- Neither a friend nor in the ledger, and not asked.
pub record IsStrange (pid : String) (s : Daemon) : Type 0 where
  pub no_friend : is_friend pid s ≡ false
  pub no_record : has pid s.ledger ≡ false
  pub not_asked : is_in pid s.request_outgoing ≡ false

-- The user does not name the peer in a request, an acceptance or as a friend.
abbrev pub IsQuiet : World → String → Event → Type 0
IsQuiet w pid (command env c) = ¬ Befriends w c pid × ¬ AsksBy w (command env c) pid
IsQuiet w pid _ = Unit {0}

module _ (w : World) (pid : String) where
  -- An event makes a friend of a peer only if the user names the peer, or if a request of this host to it
  -- is outstanding and it answers: in a packet of its own that is genuine, or over its own connection.
  pub step-Consents :
      (e : Event) (s : Daemon)
      → is_friend pid s ≡ false
      → is_friend pid (step w e s) ≡ true
      → Consents w e s pid
  step-Consents e s n y = elim (step-Move w e s) [
    | still a o ↦ absurd (ground (arith, (a pid).0, n, y))
    | befriend p m a o ↦ elim (Bool-cases (str_eq p pid)) [
      | inl here ↦ rw⁻¹ ((eq_iff p pid).0 here) m
      | inr other ↦ absurd (ground (arith, (a pid).0, n, y, other))
    ]
    | part p a o ↦ absurd (ground (arith, (a pid).0, n, y))
  ]

  no_Consents :
      (e : Event) (s : Daemon)
      → IsQuiet w pid e
      → is_in pid s.request_outgoing ≡ false
      → ¬ Consents w e s pid
  no_Consents (Event.command env c) s q n h = q.0 h
  no_Consents (Event.packet env d) s q n h = absurd (ground (arith, n, h.0))
  no_Consents (Event.frame env f verified) s q n h = absurd (ground (arith, n, h.0))
  no_Consents (Event.hello env k name address port) s q n h = h
  no_Consents (Event.tick env) s q n h = h

  no_AsksBy : (e : Event) → IsQuiet w pid e → ¬ AsksBy w e pid
  no_AsksBy (Event.command env c) q h = q.1 h
  no_AsksBy (Event.packet env d) q h = h
  no_AsksBy (Event.frame env f verified) q h = h
  no_AsksBy (Event.hello env k name address port) q h = h
  no_AsksBy (Event.tick env) q h = h

  step-IsStrange :
      (e : Event) (s : Daemon) → IsQuiet w pid e → IsStrange pid s → IsStrange pid (step w e s)
  step-IsStrange e s q h = elim (step-Move w e s) [
    | still a o ↦ record {
      no_friend = ground (arith, (a pid).0, h.no_friend);
      no_record = ground (arith, (a pid).1, h.no_record);
      not_asked = not_asked o;
    }
    | befriend p m a o ↦ elim (Bool-cases (str_eq p pid)) [
      | inl here ↦ absurd (no_Consents e s q h.not_asked (rw⁻¹ ((eq_iff p pid).0 here) m))
      | inr other ↦ record {
        no_friend = ground (arith, (a pid).0, h.no_friend, other);
        no_record = ground (arith, (a pid).1, h.no_record, other);
        not_asked = not_asked o;
      }
    ]
    | part p a o ↦ record {
      no_friend = ground (arith, (a pid).0, h.no_friend);
      no_record = ground (arith, (a pid).1, h.no_record);
      not_asked = not_asked o;
    }
  ]
    where
      not_asked :
          ((k : String)
            → is_in k (step w e s).request_outgoing ≡ true
            → (is_in k s.request_outgoing ≡ true) ⊎ AsksBy w e k)
          → is_in pid (step w e s).request_outgoing ≡ false
      not_asked o = elim (Bool-cases (is_in pid (step w e s).request_outgoing)) [
        | inr none_yet ↦ none_yet
        | inl now ↦ elim (o pid now) [
          | inl old ↦ absurd (ground (arith, old, h.not_asked))
          | inr asks ↦ absurd (no_AsksBy e q asks)
        ]
      ]

  -- A peer that is no friend, that the ledger does not have and that was not asked stays so through any
  -- packets, frames and commands, as long as the user does not name it.
  pub run-IsStrange :
      (es : List Event) (s : Daemon)
      → All (IsQuiet w pid) es
      → IsStrange pid s
      → IsStrange pid (run w es s)
  unfolding run
  run-IsStrange [] s q h = h
  run-IsStrange (e ∷ es) s q h = run-IsStrange es (step w e s) q.1 (step-IsStrange e s q.0 h)

  removed-IsStrange : (env : Env) (s : Daemon) → IsStrange pid (do_unfriend w env pid s)
  unfolding do_unfriend unfriend
  removed-IsStrange env s = record {
    no_friend = ground (arith, is_friend_in-keep pid pid s.friends, eq_refl pid);
    no_record = ground (arith, has-erase pid pid s.ledger, eq_refl pid);
    not_asked = is_in-discard_self pid s.request_outgoing;
  }

  -- A peer that the user unfriends is no friend, is not in the ledger and has no request outstanding, and
  -- this stays so through any packets, frames and commands until the user names it again.
  pub removed_stays_out :
      (env : Env) (es : List Event) (s : Daemon)
      → All (IsQuiet w pid) es
      → IsStrange pid (run w es (step w (command env (remove pid)) s))
  unfolding step handle_command command_remove
  removed_stays_out env es s q = run-IsStrange es (step w (command env (remove pid)) s) q (
      if_cases (IsStrange pid) (str_eq pid "") (λ e. removed-IsStrange env s)
        (λ e.
          let h = removed-IsStrange env s in
          record { no_friend = h.no_friend; no_record = h.no_record; not_asked = h.not_asked }))
