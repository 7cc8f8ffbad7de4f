-- ===== src/Held/Queue.antt =====
-- `_hold_friend_request` and `_release_pending_first` of server.py.
use Prim.Native.String.{len}
use lan_chat.Base.{
  ℕ, ◌+◌, String, Bool, true, false, not, ◌&&◌, ◌||◌, Option, none, some, List, [], ◌∷◌, ◌++◌,
  length, leb, ltb, ◌==◌, if◌then◌else◌,
}
use lan_chat.Dict.{Dict, lookup, insert, erase}
use lan_chat.Dict.Sums.{total}
use lan_chat.History.Types.{Attachment, Message}

abbrev pub pending_first_max_msgs : ℕ
pending_first_max_msgs = 32

abbrev pub pending_first_max_bytes : ℕ
pending_first_max_bytes = 131072

abbrev pub pending_first_global_max_msgs : ℕ
pending_first_global_max_msgs = 4096

abbrev pub pending_first_global_max_bytes : ℕ
pending_first_global_max_bytes = 8388608

-- The two dicts of the daemon's state: the messages held for each peer, and their bytes.
pub record Pending : Type 0 where
  pub pending_first : Dict (List Message)
  pub pending_first_bytes : Dict ℕ

abbrev pub or_else {ℓ} : {A : Type ℓ} → A → Option A → A
or_else a none = a
or_else a (some b) = b

-- `json_bytes` is the length of an attachment in JSON, or `none` where it cannot be written.
module _ (json_bytes : Attachment → Option ℕ) where
  abbrev pub attachment_bytes : Option Attachment → ℕ
  attachment_bytes none = 0
  attachment_bytes (some a) = or_else 0 (json_bytes a)

  unfoldable pub held_msg_bytes : Message → ℕ
  held_msg_bytes m = len m.text + attachment_bytes m.attachment

  unfoldable pub hold_friend_request : String → Message → Pending → Bool × Pending
  hold_friend_request pid m s =
      let size = held_msg_bytes m in
      let queue = or_else [] (lookup pid s.pending_first) in
      let per_bytes = or_else 0 (lookup pid s.pending_first_bytes) in
      let glob_count = total length s.pending_first in
      let glob_bytes = total (λ n. n) s.pending_first_bytes in
      if not (length queue == 0)
        && (leb pending_first_max_msgs (length queue)
            || ltb pending_first_max_bytes (per_bytes + size))
      then (false, s)
      else if ltb pending_first_global_max_msgs (glob_count + 1)
          || ltb pending_first_global_max_bytes (glob_bytes + size)
      then (false, s)
      else (
        true,
        record {
          pending_first = insert pid (queue ++ m ∷ []) s.pending_first;
          pending_first_bytes = insert pid (per_bytes + size) s.pending_first_bytes;
        },
      )

-- The messages that were held for the peer.
unfoldable pub release_pending_first : String → Pending → List Message × Pending
release_pending_first pid s = (
  or_else [] (lookup pid s.pending_first),
  record {
    pending_first = erase pid s.pending_first;
    pending_first_bytes = erase pid s.pending_first_bytes;
  },
)
