-- ===== src/Serving/Examples.antt =====
-- Tests of the offered files.
use lan_chat.Base.{ℕ, String, ◌≡◌, refl, true, some, [], ◌∷◌}
use lan_chat.Dict.{Dict, lookup}
use lan_chat.Serving.Register.{Offer, get_attachment}
use lan_chat.Friends.Sample.{world, env, daemon}
use lan_chat.Serving.Send.{local_file, Post, command_send}
use lan_chat.Serving.Offered.{IsPosted, command_send-IsPosted}
use lan_chat.Serving.Stream.{Source, payload, IsStream, serve_attachment, serve_attachment-IsStream}

abbrev gib : ℕ
gib = 1073741824

abbrev offers : Dict Offer
offers = []

abbrev source : String → Source
source path = record { size = some 3; bytes = some (1 ∷ 2 ∷ 3 ∷ []); reason = "" }

abbrev offer : Offer
offer = record { path = "/tmp/a"; name = "a"; expires = 9000 }

abbrev offered : Dict Offer
offered = ("f1", offer) ∷ []

serve_attachment-IsStream_example :
    (payload (serve_attachment (λ bytes. "digest") (λ n. true) 1000 "f1" offered source)
      ≡ 1 ∷ 2 ∷ 3 ∷ [])
    × IsStream 3 0 "digest"
        (serve_attachment (λ bytes. "digest") (λ n. true) 1000 "f1" offered source)
unfolding get_attachment lookup
serve_attachment-IsStream_example =
    serve_attachment-IsStream (λ bytes. "digest") (λ n. true) 1000 3 "f1" offered source offer
      (1 ∷ 2 ∷ 3 ∷ []) refl refl refl (λ n. refl)

abbrev post : Post
post = record { daemon = daemon; offers = offers }

command_send-IsPosted_example :
    IsPosted world env "f1" "carl" "look" "/tmp/a" "a" post
      (some 200000)
      (command_send world env gib "f1" "carl" "look" (local_file "/tmp/a" "a" (some 200000)) post)
command_send-IsPosted_example =
    command_send-IsPosted world env gib "f1" "carl" "look" "/tmp/a" "a" (some 200000) post
