-- ===== src/Serving/Register.antt =====
-- `_registration_ttl`, `register_attachment` and `get_attachment`. Times are milliseconds.
use lan_chat.Base.{
  ℕ, ◌+◌, ◌-◌, ◌*◌, ◌/◌, String, Bool, true, false, Option, none, some, ltb, min, max,
  if◌then◌else◌,
}
use lan_chat.Dict.{Dict, lookup, insert}
use lan_chat.Download.Types.{att_chunk_raw}

abbrev pub att_ttl_base : ℕ
att_ttl_base = 600000

abbrev pub att_ttl_step : ℕ
att_ttl_step = 600000

abbrev pub att_ttl_min_scale_bytes : ℕ
att_ttl_min_scale_bytes = 536870912

abbrev pub att_ttl_max : ℕ
att_ttl_max = 3600000

abbrev pub att_ttl_cap_steps : ℕ
att_ttl_cap_steps = 5

-- The bytes of one step under a per-file ceiling.
abbrev pub ttl_scale : ℕ → ℕ
ttl_scale att_max_bytes = max att_ttl_min_scale_bytes (att_max_bytes / att_ttl_cap_steps)

unfoldable pub registration_ttl : ℕ → ℕ → ℕ
registration_ttl att_max_bytes size =
    let scale = ttl_scale att_max_bytes in
    let steps = if ltb att_chunk_raw size then (size + scale - 1) / scale else 0 in
    min (att_ttl_base + steps * att_ttl_step) att_ttl_max

pub record Offer : Type 0 where
  pub path : String
  pub name : String
  pub expires : ℕ

-- `stat` is the size of the file, or none where it cannot be read; a `ttl` that is not positive is 0.
unfoldable pub register_attachment :
    ℕ → ℕ → Option ℕ → String → String → String → ℕ → Dict Offer → Bool × Dict Offer
unfolding registration_ttl
register_attachment att_max_bytes now stat file_id path name ttl d = elim stat [
  | none ↦ (false, d)
  | some size ↦
      let window = if ltb 0 ttl then ttl else registration_ttl att_max_bytes size in
      (true, insert file_id (record { path = path; name = name; expires = now + window }) d)
]

unfoldable pub get_attachment : ℕ → String → Dict Offer → Option Offer
get_attachment now file_id d = elim (lookup file_id d) [
  | none ↦ none
  | some a ↦ if ltb now a.expires then some a else none
]
