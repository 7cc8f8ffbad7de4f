-- ===== src/Download/Reserve.antt =====
-- The reservation arithmetic of attachments.py: what the active transfers hold, and the one rule by
-- which a transfer is let in.
use lan_chat.Base.{ℕ, ◌+◌, String, Bool, false, Option, none, some, ltb, leb, str_eq, if◌then◌else◌}
use lan_chat.Dict.{Dict}
use lan_chat.Dict.Sums.{total}
use lan_chat.Download.Types.{Limits, Entry}

-- What one transfer reserves: the declared total, or the bytes written while there is none.
unfoldable pub share : Entry → ℕ
share e = if ltb 0 e.total then e.total else e.written

unfoldable pub reserved_bytes_locked : Dict Entry → ℕ
reserved_bytes_locked dl = total share dl

-- 1 for a download from this peer.
unfoldable pub from_peer : String → Entry → ℕ
from_peer peer_id e = if str_eq e.peer peer_id then 1 else 0

-- `cap` is the ceiling to enforce, by default the live one; `free` is none when the probe failed.
unfoldable pub fits_reservation : Limits → ℕ → ℕ → Option ℕ → Option ℕ → Bool
fits_reservation l reserved need free cap =
    if ltb (elim cap [ none ↦ l.att_max_bytes | some c ↦ c ]) need
    then false
    else if ltb l.att_max_reserved_bytes (reserved + need)
    then false
    else elim free [ none ↦ false | some f ↦ leb (need + l.att_min_free_bytes) f ]
