-- ===== src/Settings/Examples.antt =====
-- Tests of the settings, from a fresh configuration.
use lan_chat.Base.{◌*◌, ◌≤◌, ◌≡◌, refl, true, arith, some, [], ◌∷◌, ne_of_str_eq, min}
use lan_chat.Dict.{lookup}
use lan_chat.Download.Types.{gib, default_limits, att_limit_hard_max}
use lan_chat.Download.Limits.{number, IsSane}
use lan_chat.Base.Int.{pos}
use lan_chat.Settings.Config.{Host, text, completed}
use lan_chat.Settings.Defaults.{completed-completed}
use lan_chat.Settings.Given.{bytes_key}
use lan_chat.Settings.Capacity.{Settings, set_attachment_max, set_per_peer_downloads}
use lan_chat.Settings.Reach.{
  IsInForce, set_attachment_max-IsInForce, IsScaled, set_per_peer_downloads-IsScaled,
}

abbrev fresh : Settings
fresh = record { config = []; config_file = []; limits = default_limits }

fresh-IsSane : IsSane default_limits
fresh-IsSane = record {
  bytes_min = omega arith;
  bytes_max = omega arith;
  reserved_max = omega arith;
  free_min = omega arith;
  free_max = omega arith;
  slots_min = omega arith;
  slots_max = omega arith;
}

fresh-IsInForce : IsInForce fresh
unfolding lookup
fresh-IsInForce = record { bytes = refl; reserved = refl }

set_attachment_max-IsInForce_example :
    ((set_attachment_max true 16 fresh).limits.att_max_bytes ≡ min (16 * gib) att_limit_hard_max)
    × (8 * gib ≤ (set_attachment_max true 16 fresh).limits.att_max_reserved_bytes)
    × IsInForce (set_attachment_max true 16 fresh)
set_attachment_max-IsInForce_example =
    set_attachment_max-IsInForce true 16 fresh fresh-IsSane fresh-IsInForce (omega arith)

-- A file of 32 gibibytes was asked for, and the budget of eight cuts the ceiling.
abbrev cut_short : Settings
cut_short = record {
  config = (bytes_key, number (pos (32 * gib))) ∷ [];
  config_file = [];
  limits = record default_limits { att_max_bytes = 8 * gib };
}

-- Two slots double the ceiling with the budget.
set_per_peer_downloads-IsScaled_example :
    IsScaled 2 cut_short (set_per_peer_downloads true 2 cut_short)
unfolding lookup
set_per_peer_downloads-IsScaled_example =
    set_per_peer_downloads-IsScaled true 2 cut_short
      (record {
        bytes_min = omega arith;
        bytes_max = omega arith;
        reserved_max = omega arith;
        free_min = omega arith;
        free_max = omega arith;
        slots_min = omega arith;
        slots_max = omega arith;
      })
      refl (omega arith)

abbrev laptop : Host
laptop = record {
  friendly = "TreFlipKickflip";
  downloads = "/home/me/Downloads";
  fresh_token = "0123456789abcdef";
  fresh_id = "a1b2c3";
  strip = λ s. s;
  str = λ v. "";
}

abbrev desktop : Host
desktop = record laptop { downloads = "/data"; fresh_id = "d4e5f6" }

completed-completed_example :
    lookup "id" (completed desktop (some (completed laptop (some (("token", text "secret") ∷ [])))))
    ≡ lookup "id" (completed laptop (some (("token", text "secret") ∷ [])))
completed-completed_example =
    completed-completed laptop desktop (("token", text "secret") ∷ []) "id"
      (ne_of_str_eq "displayName" "id" refl)
