-- ===== src/Http/Limits.antt =====
-- How many requests the interface lets try a token, and how many it lets send.
use mathlib.Core.Path.{subst}
use lan_chat.Base.{
  ◌||◌, ℕ, ◌≡◌, refl, sym, ◌∙◌, ap, inl, inr, Bool, true, false, List, [], ◌∷◌, ◌++◌, arith, leb,
  length, str_eq, if_cases, Bool-cases, Option-cases, if◌then◌else◌,
}
use lan_chat.Serving.Register.{Offer, get_attachment}
use lan_chat.Friends.Types.{World}
use lan_chat.Friends.Send.{find_peer, send_message}
use lan_chat.Http.Throttle.{
  recent, throttle, auth_blocked, send_window, send_max, auth_window, auth_max,
}
use lan_chat.Http.Window.{throttle_full, throttle_free, Step, stays, prunes, takes, recent-recent}
use lan_chat.Http.Api.{
  Content, value, oversized, unread, Body, fields, null, no_object, Web, ApiRequest, Visit, Api,
  unauthorized, not_found, incomplete, peer_offline, delivery_failed, Reply, sent, failed, crashed,
  is_token, request_token, auth_ok, guarded, get_found, send_file, do_get, body, deliver,
  limited_send, respond, do_post, handle,
}

-- The answers that follow a wrong token, and those that follow a place in the window of sends.
abbrev pub is_refusal : Reply → Bool
is_refusal (failed unauthorized) = true
is_refusal _ = false

abbrev pub is_attempt : Reply → Bool
is_attempt sent = true
is_attempt crashed = true
is_attempt (failed incomplete) = true
is_attempt (failed peer_offline) = true
is_attempt (failed delivery_failed) = true
is_attempt _ = false

module _ (w : World) (web : Web) (v : Visit) (r : ApiRequest) (a : Api) where
  -- What a request does to the two buckets.
  abbrev Counts : Reply × Api → Type 0
  Counts (reply, a') =
      Step auth_max auth_window v.env.now_ms (is_refusal reply) a.auth_fails a'.auth_fails
      × Step send_max send_window v.env.now_ms (is_attempt reply) a.sends a'.sends

  -- The part of an allowed request behind the tests: only the bucket of sends may change.
  abbrev Behind : Api → Reply × Api → Type 0
  Behind a' (reply, a'') =
      (is_refusal reply ≡ false)
      × (a''.auth_fails ≡ a'.auth_fails)
      × Step send_max send_window v.env.now_ms (is_attempt reply) a'.sends a''.sends

  counted :
      (o : Reply × Api) (a' : Api)
      → recent auth_window v.env.now_ms a.auth_fails ≡ a'.auth_fails
      → a'.sends ≡ a.sends
      → Behind a' o
      → Counts o
  counted (reply, a'') a' e same (ok, kept, st) = (
    subst (λ b. Step auth_max auth_window v.env.now_ms b a.auth_fails a''.auth_fails) (sym ok)
        (prunes (e ∙ sym kept)),
    subst (λ x. Step send_max send_window v.env.now_ms (is_attempt reply) x a''.sends) same st,
  )

  -- A wrong token takes a place, since the window is not full.
  refused :
      leb auth_max (length (recent auth_window v.env.now_ms a.auth_fails)) ≡ false
      → Step auth_max auth_window v.env.now_ms true a.auth_fails
          (throttle auth_max auth_window v.env.now_ms
            (recent auth_window v.env.now_ms a.auth_fails)).1
  refused e = takes (ground (arith, e)) (
      sym (
        ap (λ (x : Bool × List ℕ). x.1)
          (throttle_free auth_max auth_window v.env.now_ms
            (recent auth_window v.env.now_ms a.auth_fails) (rw same e))
        ∙ ap (λ xs. xs ++ v.env.now_ms ∷ []) same))
    where
      same :
          recent auth_window v.env.now_ms (recent auth_window v.env.now_ms a.auth_fails)
          ≡ recent auth_window v.env.now_ms a.auth_fails
      same = recent-recent auth_window v.env.now_ms v.env.now_ms (omega arith) a.auth_fails

  guarded-Counts :
      (go : Api → Reply × Api)
      → ((a' : Api) → Behind a' (go a'))
      → Counts (guarded w web v.env.now_ms r a go)
  unfolding guarded auth_blocked auth_ok
  guarded-Counts go h =
      if_cases Counts (leb auth_max (length (recent auth_window v.env.now_ms a.auth_fails)))
        (λ e. (prunes refl, stays refl))
        (λ e.
          if_cases Counts (is_token w web (request_token w web r.authorization) a.token)
            (λ t. rw t (
              counted (go (record a { auth_fails = recent auth_window v.env.now_ms a.auth_fails }))
                (record a { auth_fails = recent auth_window v.env.now_ms a.auth_fails }) refl refl
                (h (record a { auth_fails = recent auth_window v.env.now_ms a.auth_fails }))))
            (λ t. rw t (refused e, stays refl)))

  get_found-Behind : (a' : Api) → Behind a' (get_found w web v r a', a')
  unfolding get_found
  get_found-Behind a' =
      if_cases P (str_eq r.path "/peers")
        (λ _.
          if_cases P a'.full_access (λ _. (refl, refl, stays refl)) (λ _. (refl, refl, stays refl)))
        (λ _.
          if_cases P (str_eq r.path "/messages")
            (λ _.
              if_cases P a'.full_access (λ _. (refl, refl, stays refl))
                (λ _. (refl, refl, stays refl)))
            (λ _.
              if_cases P (str_eq r.path "/attachment")
                (λ _. elim (Option-cases (get_attachment v.env.now_ms r.file_id a'.offers)) [
                  | inl e ↦ rw e (refl, refl, stays refl)
                  | inr (o, e) ↦ rw e (offered o)
                ])
                (λ _. (refl, refl, stays refl))))
    where
      P : Reply → Type 0
      P reply = Behind a' (reply, a')

      offered : (o : Offer) → P (send_file w web v o)
      offered o = elim (Option-cases (v.stat o.path)) [
        | inl missing ↦ rw (send_file, missing) (refl, refl, stays refl)
        | inr (size, found) ↦ elim (Option-cases (v.contents o.path)) [
          | inl shut ↦ rw (send_file, found, shut) (refl, refl, stays refl)
          | inr (content, read) ↦ rw (send_file, found, read) (refl, refl, stays refl)
        ]
      ]

  abbrev Attempts : Api → Reply × Api → Type 0
  Attempts a' (reply, a'') =
      (is_refusal reply ≡ false)
      × (a''.auth_fails ≡ a'.auth_fails)
      × (is_attempt reply ≡ true)
      × (a''.sends ≡ a'.sends)

  deliver-Attempts : (b : Body) (a' : Api) → Attempts a' (deliver w web v b a')
  unfolding deliver send_message
  deliver-Attempts null a' = (refl, refl, refl, refl)
  deliver-Attempts no_object a' = (refl, refl, refl, refl)
  deliver-Attempts (fields to text) a' =
      if_cases (Attempts a') (str_eq to "" || str_eq (w.lib.strip text) "")
        (λ _. (refl, refl, refl, refl))
        (λ _. elim (Option-cases (find_peer to a'.daemon)) [
          | inl e ↦ rw e (refl, refl, refl, refl)
          | inr (p, e) ↦ rw e (refl, refl, refl, refl)
        ])

  limited_send-Behind : (b : Body) (a' : Api) → Behind a' (limited_send w web v b a')
  unfolding limited_send
  limited_send-Behind b a' =
      elim (Bool-cases (leb send_max (length (recent send_window v.env.now_ms a'.sends)))) [
        | inl e ↦
            rw (throttle_full send_max send_window v.env.now_ms a'.sends e)
              (refl, refl, prunes refl)
        | inr e ↦ rw (throttle_free send_max send_window v.env.now_ms a'.sends e) (
            taken e
              (deliver w web v b (record a' {
                sends = recent send_window v.env.now_ms a'.sends ++ v.env.now_ms ∷ [];
              }))
              (deliver-Attempts b (record a' {
                sends = recent send_window v.env.now_ms a'.sends ++ v.env.now_ms ∷ [];
              })))
      ]
    where
      taken :
          leb send_max (length (recent send_window v.env.now_ms a'.sends)) ≡ false
          → (o : Reply × Api)
          → Attempts
              (record a' { sends = recent send_window v.env.now_ms a'.sends ++ v.env.now_ms ∷ [] })
              o
          → Behind a' o
      taken e (reply, a'') (ok, kept, attempt, same) = (
        ok,
        kept,
        subst (λ b. Step send_max send_window v.env.now_ms b a'.sends a''.sends) (sym attempt)
            (takes (ground (arith, e)) (sym same)),
      )

  post_Counts :
      (b : Body)
      → Counts (
          if str_eq r.path "/send"
          then guarded w web v.env.now_ms r a (limited_send w web v b)
          else (failed not_found, a))
  post_Counts b =
      if_cases Counts (str_eq r.path "/send")
        (λ _. guarded-Counts (limited_send w web v b) (limited_send-Behind b))
        (λ _. (stays refl, stays refl))

  respond-Counts : (c : Content) → Counts (respond w web v r a c)
  unfolding respond
  respond-Counts unread = (stays refl, stays refl)
  respond-Counts oversized = (stays refl, stays refl)
  respond-Counts (value null) = (stays refl, stays refl)
  respond-Counts (value no_object) = post_Counts no_object
  respond-Counts (value (fields to text)) = post_Counts (fields to text)

  pub handle-Counts : (is_post : Bool) → Counts (handle w web is_post v r a)
  unfolding handle do_post do_get
  handle-Counts true = respond-Counts (body w web r)
  handle-Counts false =
      if_cases Counts (str_eq r.path "/health") (λ _. (stays refl, stays refl))
        (λ _. guarded-Counts (λ a'. (get_found w web v r a', a')) get_found-Behind)
