-- ===== src/Download/Limits.antt =====
-- `apply_config_limits` of attachments.py: the limits that a configuration may move, and never out
-- of their range.
pub mod Range
use Prim.Native.Nat.{min}
use lan_chat.Base.{
  ℕ, ◌≤◌, ◌<◌, String, ◌≡◌, Option, none, some, List, [], ◌∷◌, arith, ltb, leb, if◌then◌else◌,
}
use lan_chat.Base.Int.{ℤ, pos}
use lan_chat.Dict.{Dict, lookup}
use lan_chat.Download.Types.{
  Limits, att_limit_min, att_limit_hard_max, att_max_per_peer_max, att_max_concurrent,
}

-- What a key of the configuration may hold. A float stands as the integer that `int` makes of it.
pub data ConfigValue : Type 0 where
  boolean : ConfigValue
  number : ℤ → ConfigValue
  other : ConfigValue

-- The module attributes that `ATT_CONFIG_KEYS` names.
pub data Attr : Type 0 where
  max_bytes max_reserved_bytes min_free_bytes max_per_peer : Attr

abbrev pub att_config_keys : List (String × Attr)
att_config_keys =
    ("attachmentMaxBytes", max_bytes)
    ∷ ("attachmentMaxReservedBytes", max_reserved_bytes)
    ∷ ("attachmentMinFreeBytes", min_free_bytes)
    ∷ ("attachmentMaxPerPeer", max_per_peer)
    ∷ []

-- `limits[attr] = value`
unfoldable pub set_limit : Attr → ℕ → Limits → Limits
set_limit max_bytes v l = record l { att_max_bytes = v }
set_limit max_reserved_bytes v l = record l { att_max_reserved_bytes = v }
set_limit min_free_bytes v l = record l { att_min_free_bytes = v }
set_limit max_per_peer v l = record l { att_max_per_peer = v }

-- One round of the loop over `ATT_CONFIG_KEYS`.
unfoldable pub apply_value : Attr → Option ConfigValue → Limits → Limits
unfolding set_limit
apply_value attr (some (number (pos value))) l =
    if ltb value att_limit_min then l else set_limit attr (min value att_limit_hard_max) l
apply_value attr _ l = l

unfoldable pub apply_keys : List (String × Attr) → Dict ConfigValue → Limits → Limits
unfolding apply_value
apply_keys [] config l = l
apply_keys ((cfg_key, attr) ∷ rest) config l =
    apply_keys rest config (apply_value attr (lookup cfg_key config) l)

-- The slot count has a range of its own.
unfoldable pub apply_slots : Option ConfigValue → Limits → Limits
apply_slots (some (number (pos slots))) l =
    if leb 1 slots
    then record l { att_max_per_peer = min slots (min att_max_per_peer_max att_max_concurrent) }
    else l
apply_slots _ l = l

-- A per-file ceiling above the aggregate budget is cut down to it.
unfoldable pub cut_ceiling : Limits → Limits
cut_ceiling l =
    if ltb l.att_max_reserved_bytes l.att_max_bytes
    then record l { att_max_bytes = l.att_max_reserved_bytes }
    else l

unfoldable pub apply_config_limits : Dict ConfigValue → Limits → Limits
unfolding apply_keys apply_slots cut_ceiling
apply_config_limits config l =
    cut_ceiling
      (apply_slots (lookup "attachmentMaxPerPeer" config) (apply_keys att_config_keys config l))

-- Every limit is in its range, and a file at the ceiling fits the budget.
pub record IsSane (l : Limits) : Type 0 where
  pub bytes_min : att_limit_min ≤ l.att_max_bytes
  pub bytes_max : l.att_max_bytes ≤ l.att_max_reserved_bytes
  pub reserved_max : l.att_max_reserved_bytes ≤ att_limit_hard_max
  pub free_min : att_limit_min ≤ l.att_min_free_bytes
  pub free_max : l.att_min_free_bytes ≤ att_limit_hard_max
  pub slots_min : 1 ≤ l.att_max_per_peer
  pub slots_max : l.att_max_per_peer ≤ att_max_concurrent
