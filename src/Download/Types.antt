-- ===== src/Download/Types.antt =====
-- The module state of attachments.py: the limits, an entry of `_dl`, and what the calls share.
-- Times are milliseconds, sizes are bytes.
use lan_chat.Base.{ℕ, ◌*◌, String, Option, none, []}
use lan_chat.Dict.{Dict}
use lan_chat.Files.{Files, Handle}

abbrev pub kib : ℕ
kib = 1024

abbrev pub mib : ℕ
mib = 1024 * kib

abbrev pub gib : ℕ
gib = 1024 * mib

abbrev pub att_chunk_raw : ℕ
att_chunk_raw = 128 * kib

abbrev pub att_disk_check_interval_bytes : ℕ
att_disk_check_interval_bytes = 8 * mib

abbrev pub att_max_concurrent : ℕ
att_max_concurrent = 8

abbrev pub att_max_per_peer_max : ℕ
att_max_per_peer_max = 8

abbrev pub att_limit_min : ℕ
att_limit_min = 64 * mib

abbrev pub att_limit_hard_max : ℕ
att_limit_hard_max = 1024 * gib

abbrev pub att_total_grace : ℕ
att_total_grace = 10_000

abbrev pub dl_ttl : ℕ
dl_ttl = 600_000

-- The limits that a configuration can move.
pub record Limits : Type 0 where
  pub att_max_bytes : ℕ
  pub att_max_reserved_bytes : ℕ
  pub att_min_free_bytes : ℕ
  pub att_max_per_peer : ℕ

abbrev pub default_limits : Limits
default_limits = record {
  att_max_bytes = 4 * gib;
  att_max_reserved_bytes = 8 * gib;
  att_min_free_bytes = 4 * gib;
  att_max_per_peer = 2;
}

-- An entry of `_dl`.
pub record Entry : Type 0 where
  pub save_to : String
  pub tmp : String
  pub fh : Handle
  pub mid : String
  pub sha256 : String
  pub total : ℕ
  pub written : ℕ
  pub peer : String
  pub ts : ℕ
  pub room : String
  pub cap : ℕ
  pub next_disk_check : ℕ

-- What `last_refusal_reason` holds after a refusal.
pub data Refusal : Type 0 where
  per_peer max_concurrent disk_budget file_cap disk_unknown open_failed : Refusal

-- The reasons that `_dl_abort_locked` is given.
pub data Abort : Type 0 where
  bad_total over_per_file_cap total_rewritten over_budget no_total : Abort
  over_declared_total low_disk write_failed : Abort

pub record Board : Type 0 where
  pub limits : Limits
  pub dl : Dict Entry
  pub last_dl_peer : Dict String
  pub last_refusal_reason : Option Refusal
  pub files : Files

abbrev pub empty_board : Limits → Board
empty_board limits = record {
  limits = limits;
  dl = [];
  last_dl_peer = [];
  last_refusal_reason = none;
  files = record { names = []; next = 0; content = λ _. [] };
}
