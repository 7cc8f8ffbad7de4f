-- ===== src/Held/Examples.antt =====
-- Tests of the held requests.
use lan_chat.Base.{ℕ, ◌+◌, false, Option, none, some, List, [], ◌∷◌}
use lan_chat.History.Types.{Attachment, Message}
use lan_chat.Held.Bounds.{Call, hold, release, no_requests, run, IsBounded, run-IsBounded}

abbrev json_bytes : Attachment → Option ℕ
json_bytes a = some (a.size + 2)

abbrev request : Message
request = record {
  mid = some "m1";
  from = some "ann";
  to = some "bob";
  room = none;
  text = "let me in";
  edited = false;
  attachment = none;
}

abbrev calls : List Call
calls = hold "ann" request ∷ hold "eve" request ∷ hold "ann" request ∷ release "eve" ∷ []

run-IsBounded_example : IsBounded json_bytes (run json_bytes calls no_requests)
run-IsBounded_example = run-IsBounded json_bytes calls

abbrev three : List Message
three = request ∷ record request { mid = some "m2" } ∷ record request { mid = some "m3" } ∷ []
