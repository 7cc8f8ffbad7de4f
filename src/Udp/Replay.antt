-- ===== src/Udp/Replay.antt =====
-- A packet that was honoured is never honoured again.
use lan_chat.Base.{ℕ, ◌≤◌, String, ◌≡◌, ◌⊎◌, true, false, some, List, [], ◌∷◌}
use lan_chat.Base.Int.{ℤ}
use lan_chat.Dict.{Dict, lookup}
use lan_chat.Udp.Blob.{Printer}
use lan_chat.Udp.Seen.{Seen, is_past}
use lan_chat.Udp.Verify.{Packet, Crypto, verify_udp_friend_packet}

-- The key is in the file and in the map once it is loaded.
record IsKept (k : String) (e : ℤ) (s : Seen) : Type 0 where
  disk : Dict ℤ
  stored : s.file ≡ some disk
  on_disk : lookup k disk ≡ some e
  in_memory : s.udp_seen_loaded ≡ true → lookup k s.udp_seen ≡ some e

-- At the time t, the key is kept or its packet has expired.
abbrev IsConsumed : String → ℤ → ℕ → Seen → Type 0
IsConsumed k e t s = (is_past e t ≡ true) ⊎ IsKept k e s

-- What the daemon goes through: a packet of some type arrives, or it restarts, with the map to be read
-- again from its file. The file can be written.
pub data Event : Type 0 where
  packet : ℕ → String → Packet → Event
  restart : Event

-- The clock does not go back.
abbrev pub IsInOrder : ℕ → List Event → Type 0
IsInOrder t [] = Unit {0}
IsInOrder t (packet now kind p ∷ es) = (t ≤ now) × IsInOrder now es
IsInOrder t (restart ∷ es) = IsInOrder t es

abbrev pub last_time : ℕ → List Event → ℕ
last_time t [] = t
last_time t (packet now kind p ∷ es) = last_time now es
last_time t (restart ∷ es) = last_time t es

module _ (printer : Printer) (crypto : Crypto) where
  unfoldable pub step : Event → Seen → Seen
  step (packet now kind p) s = (verify_udp_friend_packet printer crypto now true kind p s).1
  step restart s = record { udp_seen = []; udp_seen_loaded = false; file = s.file }

  unfoldable pub run : List Event → Seen → Seen
  run [] s = s
  run (e ∷ es) s = run es (step e s)
