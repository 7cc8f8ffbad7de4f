-- ===== src/Http/Workers.antt =====
-- `_TlsHTTPServer`: the cap on the handlers that run at one time.
use lan_chat.Base.{
  ℕ, ◌+◌, ◌-◌, ◌≤◌, ◌≡◌, Bool, true, false, List, [], ◌∷◌, arith, leb, if_cases, if◌then◌else◌,
}

abbrev pub max_workers : ℕ
max_workers = 64

-- `reserved` is `_active_workers`; the handlers that run, and the connections whose thread was never
-- started, are the world's.
pub record Server : Type 0 where
  pub reserved : ℕ
  pub running : ℕ
  pub unstarted : ℕ

-- A connection comes, with a TLS handshake that succeeds or not and a thread that starts or not; or a
-- handler is done.
pub data Event : Type 0 where
  connects : Bool → Bool → Event
  finishes : Event

-- `get_request`: whether there is a connection to serve, and the count after it.
unfoldable pub get_request : Bool → ℕ → Bool × ℕ
get_request handshake reserved =
    if leb max_workers reserved
    then (false, reserved)
    else if handshake
    then (true, reserved + 1)
    else (false, reserved + 1 - 1)

-- `process_request_thread`, once the handler is done.
abbrev pub released : ℕ → ℕ
released reserved = reserved - 1

abbrev pub served : Bool → Bool × ℕ → Server → Server
served starts (true, n) s =
    if starts
    then record { reserved = n; running = s.running + 1; unstarted = s.unstarted }
    else record { reserved = n; running = s.running; unstarted = s.unstarted + 1 }
served starts (false, n) s = record { reserved = n; running = s.running; unstarted = s.unstarted }

unfoldable pub serve : Event → Server → Server
unfolding get_request
serve (connects handshake starts) s = served starts (get_request handshake s.reserved) s
serve finishes s =
    let s' : Server = record {
      reserved = released s.reserved;
      running = s.running - 1;
      unstarted = s.unstarted;
    } in
    if leb 1 s.running then s' else s

unfoldable pub serve_all : List Event → Server → Server
unfolding serve
serve_all [] s = s
serve_all (e ∷ es) s = serve_all es (serve e s)

-- The count is that of the handlers that run and of the threads that were never started, and is
-- within the cap.
pub record IsCounted (s : Server) : Type 0 where
  pub count : s.reserved ≡ s.running + s.unstarted
  pub cap : s.reserved ≤ max_workers

get_request-IsCounted :
    (handshake starts : Bool) (s : Server)
    → IsCounted s
    → IsCounted (served starts (get_request handshake s.reserved) s)
unfolding get_request
get_request-IsCounted handshake starts s h =
    if_cases P (leb max_workers s.reserved) (λ _. record { count = h.count; cap = h.cap })
      (λ e.
        if_cases P handshake (λ _. reserve starts e)
          (λ _. record { count = omega (arith, h.count); cap = omega (arith, h.cap) }))
  where
    P : Bool × ℕ → Type 0
    P o = IsCounted (served starts o s)

    reserve :
        (b : Bool)
        → leb max_workers s.reserved ≡ false
        → IsCounted (served b (true, s.reserved + 1) s)
    reserve true e = record { count = omega (arith, h.count); cap = ground (arith, e) }
    reserve false e = record { count = omega (arith, h.count); cap = ground (arith, e) }

-- Every run of connections and handlers keeps the count and the cap.
pub serve_all-IsCounted : (es : List Event) (s : Server) → IsCounted s → IsCounted (serve_all es s)
unfolding serve_all serve
serve_all-IsCounted [] s h = h
serve_all-IsCounted (connects handshake starts ∷ es) s h =
    serve_all-IsCounted es _ (get_request-IsCounted handshake starts s h)
serve_all-IsCounted (finishes ∷ es) s h = serve_all-IsCounted es _ (
    if_cases IsCounted (leb 1 s.running)
      (λ e. record { count = ground (arith, e, h.count); cap = ground (arith, h.cap) }) (λ _. h))
