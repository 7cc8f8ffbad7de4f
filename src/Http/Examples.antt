-- ===== src/Http/Examples.antt =====
-- Tests of the interface: a request for the peers, wrong tokens, and reads of bytes that come in pieces.
use lan_chat.Base.{
  ◌≡◌, ◌≤◌, ◌<◌, refl, true, false, none, some, List, [], ◌∷◌, ◌++◌, arith, length, take,
}
use lan_chat.Dict.{lookup}
use lan_chat.Friends.Sample.{world, env, daemon}
use lan_chat.Http.Throttle.{auth_window, auth_max, send_window, send_max}
use lan_chat.Http.Window.{within}
use lan_chat.Http.Reader.{Sock, RequestReader, bytes, quiet, arrives, read, readline}
use lan_chat.Http.Stream.{first_line}
use lan_chat.Http.Lines.{pending, timely, Ends, IsUnfinished, readline-Ends}
use lan_chat.Http.Body.{read-Ends}
use lan_chat.Http.Api.{Web, ApiRequest, Visit, Api, fields, sent, failed, unauthorized, handle}
use lan_chat.Http.Access.{IsDue, handle-IsDue}
use lan_chat.Http.Limits.{is_refusal, is_attempt}
use lan_chat.Http.Runs.{Call, times, handle_all, handle_all-bounds}

-- A line feed comes in the second of three pieces, the third of which is late.
abbrev pieces : Sock
pieces = arrives 10 71 (69 ∷ []) (arrives 20 84 (10 ∷ 72 ∷ []) (arrives 90 33 [] quiet))

abbrev reader : RequestReader
reader = record { buf = []; now = 5; sock = pieces }

readline_runs :
    readline 9 50 8 reader
    ≡ bytes
        (71 ∷ 69 ∷ 84 ∷ 10 ∷ [])
        (record { buf = 72 ∷ []; now = 20; sock = arrives 90 33 [] quiet })
unfolding readline
readline_runs = refl

readline-Ends_example :
    Ends
      (IsUnfinished 8 (timely 50 reader))
      50
      5
      (pending reader)
      (timely 50 reader)
      (first_line 8 (timely 50 reader))
      (readline 9 50 8 reader)
readline-Ends_example = readline-Ends 9 50 8 reader (omega arith) (omega arith)

read-Ends_example :
    Ends
      (length ([] ++ timely 50 reader) < 4)
      50
      5
      ([] ++ pending reader)
      ([] ++ timely 50 reader)
      (take 4 ([] ++ timely 50 reader))
      (read 5 50 4 [] reader)
read-Ends_example = read-Ends 5 50 4 [] [] 5 pieces (omega arith) (omega arith)

abbrev web : Web
web = record { lower = λ s. s; loads = λ raw. some (fields "carl" "hello") }

abbrev visit : Visit
visit = record { env = env; stat = λ path. none; contents = λ path. none }

abbrev request : ApiRequest
request = record {
  path = "/send";
  file_id = "";
  authorization = "bearer secret";
  content_length = 4;
  deadline = 50;
  input = reader;
}

abbrev api : Api
api = record {
  daemon = record daemon {
    peers =
        (
          "carl",
          record { id = "carl"; name = "Carl"; address = "10.0.0.3"; port = 1; last_seen = 0 },
        )
        ∷ [];
  };
  offers = [];
  token = some "secret";
  full_access = false;
  auth_fails = [];
  sends = [];
}

abbrev guess : ApiRequest
guess = record request { authorization = "bearer sesame" }

-- The message goes out, and a wrong token is refused.
send_runs : (handle world web true visit request api).0 ≡ sent
unfolding handle lookup
send_runs = refl

guess_runs : (handle world web true visit guess api).0 ≡ failed unauthorized
unfolding handle
guess_runs = refl

handle-IsDue_example :
    IsDue world web visit request api
      (handle world web true visit request api).1
      (handle world web true visit request api).0
handle-IsDue_example = handle-IsDue world web visit request api true

abbrev calls : List Call
calls =
    record { is_post = true; visit = visit; request = guess }
    ∷ record { is_post = true; visit = visit; request = request }
    ∷ record { is_post = false; visit = visit; request = guess }
    ∷ []

handle_all-bounds_example :
    (length (within auth_window 0 (times is_refusal (handle_all world web calls api))) ≤ auth_max)
    × (length (within send_window 0 (times is_attempt (handle_all world web calls api))) ≤ send_max)
handle_all-bounds_example =
    handle_all-bounds world web calls api (omega arith, (omega arith, (omega arith, tt))) refl refl
      0
