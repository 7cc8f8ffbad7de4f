-- ===== src/Friends/Examples.antt =====
-- Tests of the friends.
use lan_chat.Base.{String, ◌≡◌, ◌≢◌, arith, refl, true, false, none, List, [], ◌∷◌, ne_of_str_eq}
use lan_chat.Dict.{has}
use lan_chat.History.Store.{append_history}
use lan_chat.Friends.Types.{is_in}
use lan_chat.Friends.Sample.{world, env, old_carl, daemon}
use lan_chat.Friends.Ledger.{is_friend, is_friend_in, is_listed, restarted}
use lan_chat.Friends.Incoming.{Chat, Frame, friend_accept, chat, message_of, handle_chat}
use lan_chat.Friends.Command.{accept, remove, Event, command, frame, tick, step, run}
use lan_chat.Friends.Events.{Consents}
use lan_chat.Friends.Consent.{IsStrange, step-Consents, removed_stays_out}
use lan_chat.Friends.Mirror.{IsMirrored, restarted-run}
use lan_chat.Friends.Foothold.{foothold}

abbrev accepted : Frame
accepted = record { from = "bob"; from_name = "Bob"; address = "10.0.0.2"; body = friend_accept }

step-Consents_example : Consents world (frame env accepted "bob") daemon "bob"
unfolding is_friend_in step
step-Consents_example = step-Consents world "bob" (frame env accepted "bob") daemon refl refl

abbrev later : List Event
later = frame env accepted "bob" ∷ command env (accept "bob") ∷ tick env ∷ []

removed_stays_out_example :
    IsStrange "carl" (run world later (step world (command env (remove "carl")) daemon))
removed_stays_out_example =
    removed_stays_out world "carl" env later daemon
      (tt, (((λ e. bob_not_carl e), (λ e. e)), (tt, tt)))
  where
    bob_not_carl : (◌≢◌ {A = String} "bob" "carl")
    bob_not_carl e = ne_of_str_eq "bob" "carl" refl e

daemon-IsMirrored : IsMirrored daemon
unfolding is_friend_in has
daemon-IsMirrored k = ground arith

restarted-run_example :
    is_friend "carl"
      (restarted env (record (run world later daemon) { config_file = old_carl ∷ [] }))
    ≡ false
unfolding is_listed is_friend_in
restarted-run_example =
    restarted-run world later daemon env (old_carl ∷ []) "carl" daemon-IsMirrored refl

abbrev plea : Chat
plea = record { text = "hello"; mid = ""; room = ""; attachment = none; friend_request = true }

abbrev advert : Chat
advert = record plea { text = "buy"; friend_request = false }

abbrev from_eve : Frame
from_eve = record { from = "eve"; from_name = "Eve"; address = "10.0.0.9"; body = chat plea }

foothold_example :
    (handle_chat world env "eve" advert from_eve daemon ≡ daemon)
    × ((handle_chat world env "eve" advert from_eve
          (handle_chat world env "eve" plea from_eve daemon)).store
        ≡ append_history world.lib env.hist (message_of world env "eve" advert) daemon.store)
unfolding is_listed is_in
foothold_example =
    foothold world env "eve" plea advert from_eve from_eve daemon refl refl refl refl
      (record { no_mid = refl; no_room = refl; filled = refl }) refl
      (record { no_mid = refl; no_room = refl; filled = refl }) refl
