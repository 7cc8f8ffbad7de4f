-- ===== src/Http/Access.antt =====
-- Who gets what from the interface.
use lan_chat.Base.{
  ℕ, ◌<◌, ◌≡◌, ◌≢◌, refl, sym, ◌∙◌, ap, [], ◌||◌, String, Bool, true, false, Option, none, some,
  List, arith, leb, length, str_eq, eq_iff, if_cases, Option-cases, inl, inr, if◌then◌else◌,
}
use lan_chat.Serving.Register.{Offer, get_attachment}
use lan_chat.Friends.Types.{Peer, World}
use lan_chat.Friends.Send.{send_message, find_peer, peer_snapshot}
use lan_chat.Http.Throttle.{
  recent, throttle, auth_blocked, send_window, send_max, auth_window, auth_max,
}
use lan_chat.Http.File.{stream_file}
use lan_chat.Http.Api.{
  Content, value, oversized, unread, not_found, read_disabled, file_missing, incomplete,
  peer_offline, too_large, Body, fields, null, no_object, Web, ApiRequest, Visit, Api, Failure,
  rate_limited, unauthorized, Reply, healthy, sent, peers, messages, file, failed, no_answer,
  crashed, is_token, request_token, auth_ok, guarded, send_file, get_found, do_get, handle, respond,
  body, deliver, limited_send, do_post,
}

-- The request has the configured token, which is not empty, and fewer than ten failures are recent.
pub record IsAllowed (w : World) (web : Web) (v : Visit) (r : ApiRequest) (a : Api) : Type 0 where
  pub known : a.token ≡ some (request_token w web r.authorization)
  pub not_empty : request_token w web r.authorization ≢ ""
  pub unblocked : length (recent auth_window v.env.now_ms a.auth_fails) < auth_max

-- What an answer was given for; but for a message that is sent, the daemon is as it was.
pub data IsDue (w : World) (web : Web) (v : Visit) (r : ApiRequest) (a a' : Api)
    : Reply → Type 0 where
  health : r.path ≡ "/health" → a' ≡ a → IsDue w web v r a a' healthy
  fails : (why : Failure) → a'.daemon ≡ a.daemon → IsDue w web v r a a' (failed why)
  drops : a'.daemon ≡ a.daemon → IsDue w web v r a a' no_answer
  raises : IsAllowed w web v r a → a'.daemon ≡ a.daemon → IsDue w web v r a a' crashed
  tells_peers :
      IsAllowed w web v r a
      → a.full_access ≡ true
      → a'.daemon ≡ a.daemon
      → IsDue w web v r a a' (peers (peer_snapshot web.lower a'.daemon))
  tells_messages :
      IsAllowed w web v r a
      → a.full_access ≡ true
      → a'.daemon ≡ a.daemon
      → IsDue w web v r a a' (messages a'.daemon.store.history)
  gives :
      (o : Offer) (size : ℕ) (content : List ℕ)
      → IsAllowed w web v r a
      → get_attachment v.env.now_ms r.file_id a.offers ≡ some o
      → a'.daemon ≡ a.daemon
      → IsDue w web v r a a' (file o.name size content)
  sends :
      (to text : String)
      → IsAllowed w web v r a
      → r.path ≡ "/send"
      → find_peer to a.daemon ≢ none
      → a'.daemon ≡ (send_message w v.env to text none a.daemon).1
      → IsDue w web v r a a' sent

is_token-known :
    (w : World) (web : Web) (token : String) (o : Option String)
    → is_token w web token o ≡ true
    → (o ≡ some token) × (token ≢ "")
unfolding is_token
is_token-known w web token none e = absurd (ground (arith, e))
is_token-known w web token (some t) e = ground (arith, e, eq_iff token t, eq_iff token "")

module _ (w : World) (web : Web) (v : Visit) (r : ApiRequest) (a : Api) where
  abbrev Due : Reply × Api → Type 0
  Due (reply, a') = IsDue w web v r a a' reply

  -- What stands behind the tests is due if it is due to an allowed request.
  guarded-IsDue :
      (go : Api → Reply × Api)
      → ((a' : Api)
          → IsAllowed w web v r a
          → a'.daemon ≡ a.daemon
          → a'.full_access ≡ a.full_access
          → a'.offers ≡ a.offers
          → Due (go a'))
      → Due (guarded w web v.env.now_ms r a go)
  unfolding guarded auth_blocked auth_ok
  guarded-IsDue go h =
      if_cases Due (leb auth_max (length (recent auth_window v.env.now_ms a.auth_fails)))
        (λ e. fails rate_limited refl)
        (λ e.
          if_cases Due (is_token w web (request_token w web r.authorization) a.token)
            (λ t. rw t (
              h (record a { auth_fails = recent auth_window v.env.now_ms a.auth_fails })
                (allowed e t) refl refl refl))
            (λ t. rw t (fails unauthorized refl)))
    where
      allowed :
          leb auth_max (length (recent auth_window v.env.now_ms a.auth_fails)) ≡ false
          → is_token w web (request_token w web r.authorization) a.token ≡ true
          → IsAllowed w web v r a
      allowed e t =
          let (known, filled) =
            is_token-known w web (request_token w web r.authorization) a.token t in
          record { known = known; not_empty = filled; unblocked = ground (arith, e) }

  -- What the handlers give to an allowed request.
  get_found-IsDue :
      (a' : Api)
      → IsAllowed w web v r a
      → a'.daemon ≡ a.daemon
      → a'.full_access ≡ a.full_access
      → a'.offers ≡ a.offers
      → Due (get_found w web v r a', a')
  unfolding get_found send_file
  get_found-IsDue a' ok same full offers =
      if_cases P (str_eq r.path "/peers")
        (λ _.
          if_cases P a'.full_access (λ e. tells_peers ok (sym full ∙ e) same)
            (λ _. fails read_disabled same))
        (λ _.
          if_cases P (str_eq r.path "/messages")
            (λ _.
              if_cases P a'.full_access (λ e. tells_messages ok (sym full ∙ e) same)
                (λ _. fails read_disabled same))
            (λ _.
              if_cases P (str_eq r.path "/attachment")
                (λ _. elim (Option-cases (get_attachment v.env.now_ms r.file_id a'.offers)) [
                  | inl e ↦ rw e (fails not_found same)
                  | inr (o, e) ↦
                      rw e (offered o (ap (get_attachment v.env.now_ms r.file_id) (sym offers) ∙ e))
                ])
                (λ _. fails not_found same)))
    where
      P : Reply → Type 0
      P = IsDue w web v r a a'

      offered :
          (o : Offer)
          → get_attachment v.env.now_ms r.file_id a.offers ≡ some o
          → P (send_file w web v o)
      offered o e = elim (Option-cases (v.stat o.path)) [
        | inl missing ↦ rw (send_file, missing) (fails file_missing same)
        | inr (size, found) ↦ elim (Option-cases (v.contents o.path)) [
          | inl shut ↦ rw (send_file, found, shut) (gives o size [] ok e same)
          | inr (content, read) ↦
              rw (send_file, found, read) (gives o size (stream_file size content) ok e same)
        ]
      ]

  deliver-IsDue :
      r.path ≡ "/send"
      → (b : Body) (a' : Api) → IsAllowed w web v r a
      → a'.daemon ≡ a.daemon
      → Due (deliver w web v b a')
  unfolding deliver
  deliver-IsDue path null a' ok same = raises ok same
  deliver-IsDue path no_object a' ok same = raises ok same
  deliver-IsDue path (fields to text) a' ok same =
      if_cases Due (str_eq to "" || str_eq (w.lib.strip text) "") (λ _. fails incomplete same)
        (λ _. elim (Option-cases (find_peer to a'.daemon)) [
          | inl e ↦ rw e (fails peer_offline same)
          | inr (p, e) ↦ rw e (
              sends to text ok path (known p e)
                (ap (λ d. (send_message w v.env to text none d).1) same))
        ])
    where
      known : (p : Peer) → find_peer to a'.daemon ≡ some p → find_peer to a.daemon ≢ none
      known p e h = ground (arith, e, h, ap (find_peer to) same)

  limited_send-IsDue :
      r.path ≡ "/send"
      → (b : Body) (a' : Api) → IsAllowed w web v r a
      → a'.daemon ≡ a.daemon
      → Due (limited_send w web v b a')
  unfolding limited_send
  limited_send-IsDue path b a' ok same =
      if_cases Due (throttle send_max send_window v.env.now_ms a'.sends).0
        (λ _. deliver-IsDue path b _ ok same) (λ _. fails rate_limited same)

  pub do_get-IsDue : Due (do_get w web v r a)
  unfolding do_get
  do_get-IsDue =
      if_cases Due (str_eq r.path "/health")
        (λ e. health (ground (arith, e, eq_iff r.path "/health")) refl)
        (λ _. guarded-IsDue _ get_found-IsDue)

  post_IsDue :
      (b : Body)
      → Due (
          if str_eq r.path "/send"
          then guarded w web v.env.now_ms r a (limited_send w web v b)
          else (failed not_found, a))
  post_IsDue b =
      if_cases Due (str_eq r.path "/send")
        (λ e. guarded-IsDue (limited_send w web v b) (λ a' ok same _ _.
          limited_send-IsDue (ground (arith, e, eq_iff r.path "/send")) b a' ok same))
        (λ _. fails not_found refl)

  pub respond-IsDue : (c : Content) → Due (respond w web v r a c)
  unfolding respond
  respond-IsDue unread = drops refl
  respond-IsDue oversized = fails too_large refl
  respond-IsDue (value null) = drops refl
  respond-IsDue (value no_object) = post_IsDue no_object
  respond-IsDue (value (fields to text)) = post_IsDue (fields to text)

  -- Peers, messages, a file or a sent message answer only a request with the configured non-empty token
  -- while fewer than ten failures are recent, and peers and messages only with full access; but for a
  -- sent message the daemon is left as it was.
  pub handle-IsDue :
      (is_post : Bool)
      → IsDue w web v r a (handle w web is_post v r a).1 (handle w web is_post v r a).0
  unfolding handle do_post
  handle-IsDue true = respond-IsDue (body w web r)
  handle-IsDue false = do_get-IsDue
