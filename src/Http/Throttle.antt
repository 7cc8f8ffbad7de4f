-- ===== src/Http/Throttle.antt =====
-- `_throttle`, `_auth_blocked` and their limits. Times are milliseconds.
use lan_chat.Base.{
  ℕ, ◌+◌, Bool, true, false, List, [], ◌∷◌, ◌++◌, ltb, leb, length, keep, if◌then◌else◌,
}

abbrev pub send_window : ℕ
send_window = 10000

abbrev pub send_max : ℕ
send_max = 40

abbrev pub auth_window : ℕ
auth_window = 10000

abbrev pub auth_max : ℕ
auth_max = 10

-- `[t for t in bucket if now - t < window]`
unfoldable pub recent : ℕ → ℕ → List ℕ → List ℕ
recent window now bucket = keep (λ t. ltb now (t + window)) bucket

-- Whether the call is allowed, and the bucket after it.
unfoldable pub throttle : ℕ → ℕ → ℕ → List ℕ → Bool × List ℕ
unfolding recent
throttle limit window now bucket =
    let kept = recent window now bucket in
    if leb limit (length kept) then (false, kept) else (true, kept ++ now ∷ [])

unfoldable pub auth_blocked : ℕ → List ℕ → Bool × List ℕ
unfolding recent
auth_blocked now bucket =
    let kept = recent auth_window now bucket in (leb auth_max (length kept), kept)
