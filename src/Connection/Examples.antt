-- ===== src/Connection/Examples.antt =====
-- Tests of the reader: a line of one byte names the message.
use lan_chat.Base.{
  ℕ, String, ◌≡◌, refl, Bool, true, false, not, none, some, List, [], ◌∷◌, ◌++◌, arith, ◌==◌,
  str_eq, if◌then◌else◌, ne_of_str_eq,
}
use lan_chat.Connection.Inbound.{
  identity, identity_proof, other, Parsed, parsed, Source, new_reader, feed, feed_all,
}
use lan_chat.Friends.Types.{is_in}
use lan_chat.Connection.Active.{Payload, Conn, is_sent, flush_locked, maybe_set_active, drop_conn}
use lan_chat.Connection.Outbound.{
  Line, skipped, challenge, message, proof, handled, Outbound, on_chunks,
}
use lan_chat.Connection.Whole.{concat, IsWhole, on_chunks-IsWhole}
use lan_chat.Connection.Dial.{is_due, dial_round}
use lan_chat.Connection.Retry.{Event, round, drops, link_run, link_run-sock}
use lan_chat.Connection.Queue.{flush_locked-forgets, maybe_set_active-converges}
use lan_chat.Connection.Chunks.{feed-append}
use lan_chat.Connection.Proof.{IsSafe, feed_all-IsSafe}

abbrev parse : List ℕ → Parsed ℕ
parse [] = Parsed.skipped
parse (n ∷ bytes) =
    if n == 0
    then Parsed.no_object
    else if n == 1
    then parsed (identity "bob" "bob")
    else if n == 2
    then parsed (identity_proof "signed")
    else parsed (other n)

abbrev src : Source ℕ
src = record {
  parse = parse;
  crypto = record {
    host_id = "ann";
    fingerprint = λ cert. cert;
    verify = λ cert nonce sig. str_eq sig "signed";
  };
  nonce = "nonce";
  challenges = true;
}

-- A message that comes before the proof is handled after it, under the proved identity.
handled_in_order :
    (feed_all src ((1 ∷ 10 ∷ 7 ∷ []) ∷ (10 ∷ 2 ∷ 10 ∷ 8 ∷ 10 ∷ []) ∷ []) new_reader).session.handled
    ≡ ("bob", other 7) ∷ ("bob", other 8) ∷ []
unfolding feed_all
handled_in_order = refl

feed_all-IsSafe_example :
    IsSafe src (feed_all src ((1 ∷ 10 ∷ 7 ∷ []) ∷ (10 ∷ 2 ∷ 10 ∷ []) ∷ []) new_reader).session
feed_all-IsSafe_example = feed_all-IsSafe src ((1 ∷ 10 ∷ 7 ∷ []) ∷ (10 ∷ 2 ∷ 10 ∷ []) ∷ [])

feed-append_example :
    feed src (1 ∷ 10 ∷ 7 ∷ 10 ∷ 2 ∷ 10 ∷ []) new_reader
    ≡ feed src (10 ∷ 2 ∷ 10 ∷ []) (feed src (1 ∷ 10 ∷ 7 ∷ []) new_reader)
feed-append_example =
    feed-append src (1 ∷ 10 ∷ 7 ∷ []) (10 ∷ 2 ∷ 10 ∷ []) new_reader (omega arith) (omega arith)
      (omega arith)

abbrev note : String → Payload
note mid = record { kind = "msg"; mid = mid; text = "hi" }

-- The write of the second message fails.
abbrev sends : Payload → Bool
sends p = not (str_eq p.mid "m2")

abbrev conn : Conn
conn = record { sock = none; initiator = ""; hold = []; sent_mids = []; written = [] }

flush_locked-forgets_example :
    (flush_locked sends
      (record conn { sock = some 7; hold = (note "m1" ∷ []) ++ note "m2" ∷ note "m3" ∷ [] })).hold
    ≡ note "m2" ∷ []
unfolding is_sent is_in
flush_locked-forgets_example =
    flush_locked-forgets sends 7 (note "m1" ∷ []) (note "m2") (note "m3" ∷ []) conn
      ((refl, ne_of_str_eq "m1" "m2" refl), tt) refl refl

maybe_set_active-converges_example :
    let first = (maybe_set_active sends "ann" "bob" 1 "ann" (drop_conn conn)).1 in
    let second = (maybe_set_active sends "ann" "bob" 2 "bob" (drop_conn conn)).1 in
    (((maybe_set_active sends "ann" "bob" 2 "bob" first).1.sock ≡ some 1)
      × ((maybe_set_active sends "ann" "bob" 2 "bob" first).1.initiator ≡ "ann"))
    × (((maybe_set_active sends "ann" "bob" 1 "ann" second).1.sock ≡ some 1)
        × ((maybe_set_active sends "ann" "bob" 1 "ann" second).1.initiator ≡ "ann"))
maybe_set_active-converges_example =
    maybe_set_active-converges sends "ann" "bob" 1 2 conn refl (ne_of_str_eq "ann" "bob" refl)

-- A line of one byte is a message, but for the challenge 3.
abbrev parse_line : List ℕ → Line ℕ
parse_line [] = skipped
parse_line (n ∷ bytes) = if n == 3 then challenge "nonce" else message n

abbrev chunks : List (List ℕ)
chunks = (3 ∷ 10 ∷ 4 ∷ []) ∷ (10 ∷ 5 ∷ []) ∷ []

abbrev dialed : Outbound ℕ
dialed = record { buf = []; acts = []; closed = false }

on_chunks_runs :
    on_chunks parse_line "bob" chunks dialed
    ≡ record { buf = 5 ∷ []; acts = proof "nonce" ∷ handled "bob" 4 ∷ []; closed = false }
unfolding on_chunks
on_chunks_runs = refl

on_chunks-IsWhole_example :
    IsWhole parse_line "bob" (concat chunks) [] (on_chunks parse_line "bob" chunks dialed)
unfolding on_chunks
on_chunks-IsWhole_example = on_chunks-IsWhole parse_line "bob" chunks refl

-- A dial fails at once, and the socket that a later one gets drops.
abbrev troubles : List Event
troubles = round 1000 none true ∷ round 2000 none true ∷ round 5000 (some 4) true ∷ drops ∷ []

link_run-sock_example :
    (dial_round sends "ann" "bob" true 25000
      (some 9)
      true
      (link_run sends "ann" "bob" troubles
        (record { conn = conn; next_try = 0; backoff = 2000 }, 0)).0).conn.sock
    ≡ some 9
unfolding link_run is_due maybe_set_active flush_locked
link_run-sock_example =
    link_run-sock sends "ann" "bob" (ne_of_str_eq "bob" "ann" refl) troubles conn 25000 9 refl
      (omega arith)
