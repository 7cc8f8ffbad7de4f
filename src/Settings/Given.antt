-- ===== src/Settings/Given.antt =====
-- The limits that a configuration gives, one by one.
use lan_chat.Base.{
  ℕ, ◌≤◌, ◌≡◌, ◌≢◌, refl, ◌∙◌, ap, String, Option, none, some, arith, min, ltb, Bool-cases, inl,
  inr, if◌then◌else◌,
}
use lan_chat.Base.Int.{pos, negsuc}
use lan_chat.Dict.{Dict, lookup}
use lan_chat.Download.Types.{Limits, att_limit_min, att_limit_hard_max, att_max_concurrent}
use lan_chat.Download.Limits.{
  ConfigValue, boolean, number, other, Attr, max_bytes, max_reserved_bytes, min_free_bytes,
  max_per_peer, set_limit, apply_value, apply_keys, apply_slots, cut_ceiling, apply_config_limits,
}

-- A byte limit after the loop.
abbrev pub next : Option ConfigValue → ℕ → ℕ
next (some (number (pos value))) old =
    if ltb value att_limit_min then old else min value att_limit_hard_max
next _ old = old

bytes_next :
    (o : Option ConfigValue) (l : Limits)
    → (apply_value max_bytes o l).att_max_bytes ≡ next o l.att_max_bytes
unfolding apply_value set_limit
bytes_next o l = ground arith

reserved_next :
    (o : Option ConfigValue) (l : Limits)
    → (apply_value max_reserved_bytes o l).att_max_reserved_bytes ≡ next o l.att_max_reserved_bytes
unfolding apply_value set_limit
reserved_next o l = ground arith

bytes_same :
    (attr : Attr) (o : Option ConfigValue) (l : Limits)
    → attr ≢ max_bytes
    → (apply_value attr o l).att_max_bytes ≡ l.att_max_bytes
unfolding apply_value set_limit
bytes_same attr o l h = ground arith

reserved_same :
    (attr : Attr) (o : Option ConfigValue) (l : Limits)
    → attr ≢ max_reserved_bytes
    → (apply_value attr o l).att_max_reserved_bytes ≡ l.att_max_reserved_bytes
unfolding apply_value set_limit
reserved_same attr o l h = ground arith

slots_same :
    (o : Option ConfigValue) (l : Limits)
    → ((apply_slots o l).att_max_bytes ≡ l.att_max_bytes)
      × ((apply_slots o l).att_max_reserved_bytes ≡ l.att_max_reserved_bytes)
unfolding apply_slots
slots_same o l = ground arith

abbrev pub reserved_key : String
reserved_key = "attachmentMaxReservedBytes"

abbrev pub slots_key : String
slots_key = "attachmentMaxPerPeer"

abbrev pub bytes_key : String
bytes_key = "attachmentMaxBytes"

-- The limits after each round of the loop, and after the slots.
abbrev first : Dict ConfigValue → Limits → Limits
first config l = apply_value max_bytes (lookup bytes_key config) l

abbrev second : Dict ConfigValue → Limits → Limits
second config l = apply_value max_reserved_bytes (lookup reserved_key config) (first config l)

abbrev third : Dict ConfigValue → Limits → Limits
third config l =
    apply_value min_free_bytes (lookup "attachmentMinFreeBytes" config) (second config l)

abbrev fourth : Dict ConfigValue → Limits → Limits
fourth config l = apply_value max_per_peer (lookup slots_key config) (third config l)

looped : Dict ConfigValue → Limits → Limits
looped config l = apply_slots (lookup slots_key config) (fourth config l)

-- The byte limits before the ceiling is cut.
looped_bytes :
    (config : Dict ConfigValue) (l : Limits)
    → (looped config l).att_max_bytes ≡ next (lookup bytes_key config) l.att_max_bytes
unfolding looped
looped_bytes config l =
    (slots_same (lookup slots_key config) (fourth config l)).0
    ∙ bytes_same max_per_peer (lookup slots_key config) (third config l) (λ e. cc)
    ∙ bytes_same min_free_bytes (lookup "attachmentMinFreeBytes" config) (second config l) (λ e. cc)
    ∙ bytes_same max_reserved_bytes (lookup reserved_key config) (first config l) (λ e. cc)
    ∙ bytes_next (lookup bytes_key config) l

looped_reserved :
    (config : Dict ConfigValue) (l : Limits)
    → (looped config l).att_max_reserved_bytes
      ≡ next (lookup reserved_key config) l.att_max_reserved_bytes
unfolding looped
looped_reserved config l =
    (slots_same (lookup slots_key config) (fourth config l)).1
    ∙ reserved_same max_per_peer (lookup slots_key config) (third config l) (λ e. cc)
    ∙ reserved_same min_free_bytes (lookup "attachmentMinFreeBytes" config) (second config l)
        (λ e. cc)
    ∙ reserved_next (lookup reserved_key config) (first config l)
    ∙ ap (next (lookup reserved_key config))
        (reserved_same max_bytes (lookup bytes_key config) l (λ e. cc))

cut :
    (l : Limits)
    → ((cut_ceiling l).att_max_bytes ≡ min l.att_max_bytes l.att_max_reserved_bytes)
      × ((cut_ceiling l).att_max_reserved_bytes ≡ l.att_max_reserved_bytes)
      × ((cut_ceiling l).att_max_per_peer ≡ l.att_max_per_peer)
unfolding cut_ceiling
cut l = ground arith

-- The limits that a configuration gives.
pub apply_config_limits-reserved :
    (config : Dict ConfigValue) (l : Limits)
    → (apply_config_limits config l).att_max_reserved_bytes
      ≡ next (lookup reserved_key config) l.att_max_reserved_bytes
unfolding apply_config_limits looped apply_keys
apply_config_limits-reserved config l = (cut (looped config l)).1 ∙ looped_reserved config l

pub apply_config_limits-bytes :
    (config : Dict ConfigValue) (l : Limits)
    → (apply_config_limits config l).att_max_bytes
      ≡ min
          (next (lookup bytes_key config) l.att_max_bytes)
          (next (lookup reserved_key config) l.att_max_reserved_bytes)
unfolding apply_config_limits looped apply_keys
apply_config_limits-bytes config l =
    rw (← looped_bytes config l, ← looped_reserved config l) ((cut (looped config l)).0)

next-next : (o : Option ConfigValue) (v : ℕ) → next o (next o v) ≡ next o v
next-next none v = refl
next-next (some boolean) v = refl
next-next (some other) v = refl
next-next (some (number (negsuc n))) v = refl
next-next (some (number (pos n))) v = elim (Bool-cases (ltb n att_limit_min)) [
  | inl e ↦ rw e refl
  | inr e ↦ rw e refl
]

-- What a configuration gives, it gives again.
pub given :
    (config : Dict ConfigValue) (l : Limits)
    → next (lookup reserved_key config) (apply_config_limits config l).att_max_reserved_bytes
      ≡ (apply_config_limits config l).att_max_reserved_bytes
given config l =
    rw (apply_config_limits-reserved config l)
      (next-next (lookup reserved_key config) l.att_max_reserved_bytes)

-- A number of slots is cut to eight.
pub apply_config_limits-slots :
    (config : Dict ConfigValue) (l : Limits) (slots : ℕ)
    → lookup slots_key config ≡ some (number (pos slots))
    → 1 ≤ slots
    → (apply_config_limits config l).att_max_per_peer ≡ min slots att_max_concurrent
unfolding apply_config_limits looped apply_keys apply_slots
apply_config_limits-slots config l slots e le =
    (cut (looped config l)).2
    ∙ ap (λ o. (apply_slots o (fourth config l)).att_max_per_peer) e
    ∙ taken slots (fourth config l) le
  where
    taken :
        (n : ℕ) (l' : Limits)
        → 1 ≤ n
        → (apply_slots (some (number (pos n))) l').att_max_per_peer ≡ min n att_max_concurrent
    taken n l' h = ground (arith, h)
