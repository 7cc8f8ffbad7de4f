-- ===== src/Udp/Seen.antt =====
-- `_udp_seen_check`: the map of nonces that were honoured, and its file. A time `now` is in
-- milliseconds, an instant of a packet in seconds.
use lan_chat.Base.{ℕ, String, Bool, true, false, not, Option, none, some, keep, if◌then◌else◌}
use lan_chat.Base.Int.{ℤ, pos, ltb_ℤ, plus, thousand}
use lan_chat.Dict.{Dict, insert, has}
use lan_chat.Udp.Blob.{Printer, udp_seen_key}

abbrev pub udp_sig_validity : ℕ
udp_sig_validity = 120

abbrev pub udp_sig_clock_slack : ℕ
udp_sig_clock_slack = 30

-- The map in memory, whether it was loaded, and what json reads from the file, which is none where
-- there is no file or it holds no dict.
pub record Seen : Type 0 where
  pub udp_seen : Dict ℤ
  pub udp_seen_loaded : Bool
  pub file : Option (Dict ℤ)

unfoldable pub udp_seen_load : Seen → Seen
udp_seen_load s = elim s.file [
  | none ↦ record s { udp_seen_loaded = true }
  | some d ↦ record s { udp_seen_loaded = true; udp_seen = d }
]

-- `e + _UDP_SIG_CLOCK_SLACK < now`
abbrev pub is_past : ℤ → ℕ → Bool
is_past e now = ltb_ℤ (thousand (plus e udp_sig_clock_slack)) (pos now)

abbrev pub loaded : Seen → Seen
loaded s = if s.udp_seen_loaded then s else udp_seen_load s

abbrev pub pruned : ℕ → Dict ℤ → Dict ℤ
pruned now d = keep (λ (_, e). not (is_past e now)) d

-- `saves` is false where the file cannot be written.
unfoldable pub udp_seen_check : Printer → ℕ → Bool → String → String → ℤ → Seen → Bool × Seen
unfolding udp_seen_load
udp_seen_check printer now saves sender_id nonce exp s =
    let s1 = loaded s in
    let seen = pruned now s1.udp_seen in
    let key = udp_seen_key printer sender_id nonce in
    let added = insert key exp seen in
    if has key seen
    then (false, record s1 { udp_seen = seen })
    else (true, record s1 { udp_seen = added; file = if saves then some added else s1.file })
