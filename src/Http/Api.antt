-- ===== src/Http/Api.antt =====
-- `_ApiHandler`: the requests that the interface answers.
use Prim.Native.String.{slice, len}
use lan_chat.Base.{
  ℕ, ◌+◌, ◌==◌, String, Bool, false, not, ◌&&◌, ◌||◌, Option, none, some, List, [], ltb, str_eq,
  if◌then◌else◌,
}
use lan_chat.Dict.{Dict}
use lan_chat.History.Types.{Message}
use lan_chat.Serving.Register.{Offer, get_attachment}
use lan_chat.Friends.Types.{Peer, Daemon, World, Env}
use lan_chat.Friends.Send.{send_message, find_peer, peer_snapshot}
use lan_chat.Http.Throttle.{throttle, auth_blocked, send_window, send_max, auth_window, auth_max}
use lan_chat.Http.Reader.{RequestReader, bytes, timeout, out_of_fuel, read}
use lan_chat.Http.File.{stream_file}

abbrev pub max_body : ℕ
max_body = 262144

-- What `json.loads` makes of a body: the fields `to` and `text` of an object, as `str` prints them.
pub data Body : Type 0 where
  fields : String → String → Body
  null no_object : Body

-- What `_body` finds: a value, more bytes than are read, or a read that times out.
pub data Content : Type 0 where
  value : Body → Content
  oversized unread : Content

-- The calls of the libraries: `str.lower`, and the decoding of a body, none where it fails.
pub record Web : Type 0 where
  pub lower : String → String
  pub loads : List ℕ → Option Body

-- A request: the path and the `fileId` of its target, its headers, and the reader of its bytes. A
-- length that is absent, no number or negative is 0.
pub record ApiRequest : Type 0 where
  pub path : String
  pub file_id : String
  pub authorization : String
  pub content_length : ℕ
  pub deadline : ℕ
  pub input : RequestReader

-- What a request finds: the daemon's environment, the size of a file and its bytes, where they can be
-- read.
pub record Visit : Type 0 where
  pub env : Env
  pub stat : String → Option ℕ
  pub contents : String → Option (List ℕ)

-- `token` and `full_access` are of the configuration.
pub record Api : Type 0 where
  pub daemon : Daemon
  pub offers : Dict Offer
  pub token : Option String
  pub full_access : Bool
  pub auth_fails : List ℕ
  pub sends : List ℕ

pub data Failure : Type 0 where
  too_large rate_limited unauthorized read_disabled not_found file_missing incomplete : Failure
  peer_offline delivery_failed : Failure

-- The answers: `healthy` and `sent` are both `{"ok": true}`. A file goes with the size that was
-- announced for it. The connection is dropped without an answer where the read of the body times out
-- or nothing answers, and where the handler raises.
pub data Reply : Type 0 where
  healthy sent : Reply
  peers : List Peer → Reply
  messages : List Message → Reply
  file : String → ℕ → List ℕ → Reply
  failed : Failure → Reply
  no_answer crashed : Reply

abbrev pub status : Failure → ℕ
status too_large = 413
status rate_limited = 429
status unauthorized = 401
status read_disabled = 403
status not_found = 404
status file_missing = 404
status incomplete = 400
status peer_offline = 404
status delivery_failed = 500

module _ (w : World) (web : Web) where
  unfoldable pub request_token : String → String
  request_token authorization =
      let auth = w.lib.strip authorization in
      if str_eq (slice (web.lower auth) 0 7) "bearer "
      then w.lib.strip (slice auth 7 (len auth))
      else ""

  unfoldable pub is_token : String → Option String → Bool
  is_token token none = false
  is_token token (some t) = not (str_eq token "") && str_eq token t

  -- A failure counts against the later ones.
  unfoldable pub auth_ok : ℕ → String → Api → Bool × Api
  unfolding is_token throttle
  auth_ok now token a =
      let ok = is_token token a.token in
      let counted = record a { auth_fails = (throttle auth_max auth_window now a.auth_fails).1 } in
      (ok, if ok then a else counted)

  -- The two tests that stand before all but `/health`.
  unfoldable pub guarded : ℕ → ApiRequest → Api → (Api → Reply × Api) → Reply × Api
  unfolding auth_blocked auth_ok request_token
  guarded now r a go =
      let (blocked, fails) = auth_blocked now a.auth_fails in
      let a' = record a { auth_fails = fails } in
      let (ok, a'') = auth_ok now (request_token r.authorization) a' in
      let done = go a'' in
      if blocked then (failed rate_limited, a') else if ok then done else (failed unauthorized, a'')

  unfoldable pub send_file : Visit → Offer → Reply
  unfolding stream_file
  send_file v o = elim (v.stat o.path) [
    | none ↦ failed file_missing
    | some size ↦ elim (v.contents o.path) [
      | none ↦ file o.name size []
      | some content ↦ file o.name size (stream_file size content)
    ]
  ]

  unfoldable pub get_found : Visit → ApiRequest → Api → Reply
  unfolding get_attachment send_file peer_snapshot
  get_found v r a =
      if str_eq r.path "/peers"
      then if a.full_access then peers (peer_snapshot web.lower a.daemon) else failed read_disabled
      else if str_eq r.path "/messages"
      then if a.full_access then messages a.daemon.store.history else failed read_disabled
      else if str_eq r.path "/attachment"
      then elim (get_attachment v.env.now_ms r.file_id a.offers) [
        | none ↦ failed not_found
        | some o ↦ send_file v o
      ]
      else failed not_found

  unfoldable pub do_get : Visit → ApiRequest → Api → Reply × Api
  unfolding guarded get_found
  do_get v r a =
      let found = guarded v.env.now_ms r a (λ a'. (get_found v r a', a')) in
      if str_eq r.path "/health" then (healthy, a) else found

  unfoldable pub body : ApiRequest → Content
  unfolding read
  body r =
      let got = read (r.content_length + 1) r.deadline r.content_length [] r.input in
      let found : Content = elim got [
        | bytes raw _ ↦ elim (web.loads raw) [ none ↦ value (fields "" "") | some b ↦ value b ]
        | timeout ↦ unread
        | out_of_fuel ↦ unread
      ] in
      if r.content_length == 0
      then value (fields "" "")
      else if ltb max_body r.content_length
      then oversized
      else found

  unfoldable pub deliver : Visit → Body → Api → Reply × Api
  unfolding send_message
  deliver v (fields to text) a =
      let (ok, daemon) = send_message w v.env to text none a.daemon in
      let a' = record a { daemon = daemon } in
      if str_eq to "" || str_eq (w.lib.strip text) ""
      then (failed incomplete, a)
      else elim (find_peer to a.daemon) [
        | none ↦ (failed peer_offline, a)
        | some p ↦ if ok then (sent, a') else (failed delivery_failed, a')
      ]
  deliver v _ a = (crashed, a)

  unfoldable pub limited_send : Visit → Body → Api → Reply × Api
  unfolding throttle deliver
  limited_send v b a =
      let (allowed, sends) = throttle send_max send_window v.env.now_ms a.sends in
      let a' = record a { sends = sends } in
      let done = deliver v b a' in if allowed then done else (failed rate_limited, a')

  unfoldable pub respond : Visit → ApiRequest → Api → Content → Reply × Api
  unfolding guarded limited_send
  respond v r a unread = (no_answer, a)
  respond v r a oversized = (failed too_large, a)
  respond v r a (value null) = (no_answer, a)
  respond v r a (value b) =
      let done = guarded v.env.now_ms r a (λ a'. limited_send v b a') in
      if str_eq r.path "/send" then done else (failed not_found, a)

  unfoldable pub do_post : Visit → ApiRequest → Api → Reply × Api
  unfolding body respond
  do_post v r a = respond v r a (body r)

  -- A request by its method.
  unfoldable pub handle : Bool → Visit → ApiRequest → Api → Reply × Api
  unfolding do_get do_post
  handle is_post v r a = if is_post then do_post v r a else do_get v r a
