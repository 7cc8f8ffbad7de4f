-- ===== src/Settings/Capacity.antt =====
-- `setAttachmentMax` and `setPerPeerDownloads`: the limits of the downloads.
use lan_chat.Base.{ℕ, ◌*◌, Bool, min, ltb, if◌then◌else◌}
use lan_chat.Base.Int.{pos}
use lan_chat.Dict.{Dict, insert}
use lan_chat.Download.Types.{Limits, gib, att_limit_hard_max}
use lan_chat.Download.Limits.{ConfigValue, number, apply_config_limits}

-- The configuration, its file, and the limits in force.
pub record Settings : Type 0 where
  pub config : Dict ConfigValue
  pub config_file : Dict ConfigValue
  pub limits : Limits

-- What follows a change of the configuration: the limits are applied and the file is written.
abbrev pub put_in_force : Bool → Dict ConfigValue → Settings → Settings
put_in_force saves config s = record {
  config = config;
  config_file = if saves then config else s.config_file;
  limits = apply_config_limits config s.limits;
}

-- The budget of the configuration, raised to `raised` where it does not cover `needed`.
abbrev pub with_budget : ℕ → ℕ → Settings → Dict ConfigValue
with_budget needed raised s =
    if ltb s.limits.att_max_reserved_bytes needed
    then insert "attachmentMaxReservedBytes" (number (pos (min raised att_limit_hard_max))) s.config
    else s.config

-- A number of gibibytes that is not positive, or is no number, is 0.
unfoldable pub set_attachment_max : Bool → ℕ → Settings → Settings
unfolding apply_config_limits
set_attachment_max saves gibs s =
    let want = gibs * gib in
    if ltb gibs 1
    then s
    else put_in_force saves
        (insert "attachmentMaxBytes" (number (pos want)) (with_budget want (2 * want) s)) s

unfoldable pub set_per_peer_downloads : Bool → ℕ → Settings → Settings
unfolding apply_config_limits
set_per_peer_downloads saves slots s =
    let needed = slots * s.limits.att_max_bytes in
    if ltb slots 1
    then s
    else put_in_force saves
        (insert "attachmentMaxPerPeer" (number (pos slots)) (with_budget needed needed s)) s
