-- ===== src/Download/Limits/Range.antt =====
-- No configuration takes a limit out of its range, or a gate away.
use Prim.Native.Nat.{min}
use lan_chat.Base.{
  ℕ, ◌≤◌, String, ◌≡◌, ◌≢◌, inl, inr, Option, none, some, List, [], ◌∷◌, arith, ltb, Bool-cases,
  ◌∙◌,
}
use lan_chat.Base.Int.{pos, negsuc}
use lan_chat.Dict.{Dict, lookup}
use lan_chat.Download.Types.{Limits, att_limit_min, att_limit_hard_max, att_max_concurrent}
use lan_chat.Download.Limits.{
  ConfigValue, boolean, number, other, Attr, max_bytes, max_reserved_bytes, min_free_bytes,
  max_per_peer, att_config_keys, set_limit, apply_value, apply_keys, apply_slots, cut_ceiling,
  apply_config_limits, IsSane,
}

-- The byte limits are in range; the loop may leave the ceiling above the budget.
record InRange (l : Limits) : Type 0 where
  bytes_min : att_limit_min ≤ l.att_max_bytes
  bytes_max : l.att_max_bytes ≤ att_limit_hard_max
  reserved_min : att_limit_min ≤ l.att_max_reserved_bytes
  reserved_max : l.att_max_reserved_bytes ≤ att_limit_hard_max
  free_min : att_limit_min ≤ l.att_min_free_bytes
  free_max : l.att_min_free_bytes ≤ att_limit_hard_max

set_limit-InRange :
    (attr : Attr) (v : ℕ) (l : Limits)
    → att_limit_min ≤ v
    → InRange l
    → InRange (set_limit attr (min v att_limit_hard_max) l)
unfolding set_limit
set_limit-InRange max_bytes v l g h = ground arith
set_limit-InRange _ v l g h = ground arith

apply_value-InRange :
    (attr : Attr) (o : Option ConfigValue) (l : Limits) → InRange l → InRange (apply_value attr o l)
unfolding apply_value
apply_value-InRange attr none l h = h
apply_value-InRange attr (some boolean) l h = h
apply_value-InRange attr (some other) l h = h
apply_value-InRange attr (some (number (negsuc n))) l h = h
apply_value-InRange attr (some (number (pos v))) l h = elim (Bool-cases (ltb v att_limit_min)) [
  | inl small ↦ rw small h
  | inr large ↦ rw large (set_limit-InRange attr v l (ground arith) h)
]

apply_keys-InRange :
    (keys : List (String × Attr)) (config : Dict ConfigValue) (l : Limits)
    → InRange l
    → InRange (apply_keys keys config l)
unfolding apply_keys
apply_keys-InRange [] config l h = h
apply_keys-InRange ((k, attr) ∷ rest) config l h =
    apply_keys-InRange rest config _ (apply_value-InRange attr (lookup k config) l h)

-- The other keys leave the slot count alone.
slots_apply_value :
    (attr : Attr) (o : Option ConfigValue) (l : Limits)
    → attr ≢ max_per_peer
    → (apply_value attr o l).att_max_per_peer ≡ l.att_max_per_peer
unfolding apply_value set_limit
slots_apply_value attr o l h = ground arith

-- The loop moves the slot count only to a number that `apply_slots` then puts in range.
slots_apply_slots :
    (o : Option ConfigValue) (l : Limits) (s : ℕ)
    → 1 ≤ s
    → s ≤ att_max_concurrent
    → l.att_max_per_peer ≡ s
    → let l' = apply_slots o (apply_value max_per_peer o l) in
      (1 ≤ l'.att_max_per_peer) × (l'.att_max_per_peer ≤ att_max_concurrent)
unfolding apply_value apply_slots
slots_apply_slots o l s h k e = ground arith

apply_slots-InRange : (o : Option ConfigValue) (l : Limits) → InRange l → InRange (apply_slots o l)
unfolding apply_slots
apply_slots-InRange o l h = ground arith

cut_ceiling-IsSane :
    (l : Limits)
    → InRange l
    → 1 ≤ l.att_max_per_peer
    → l.att_max_per_peer ≤ att_max_concurrent
    → IsSane (cut_ceiling l)
unfolding cut_ceiling
cut_ceiling-IsSane l h s k = ground arith

-- Whatever the configuration holds: if the limits are sane, they are sane after it is applied.
-- Each byte limit is between 64 MiB and 1 TiB, the slots of a peer between one and eight, and a file
-- at the ceiling fits the aggregate budget.
pub apply_config_limits-IsSane :
    (config : Dict ConfigValue) (l : Limits) → IsSane l → IsSane (apply_config_limits config l)
unfolding apply_config_limits
apply_config_limits-IsSane config l h =
    let range : InRange l = record {
      bytes_min = h.bytes_min;
      bytes_max = omega arith;
      reserved_min = omega arith;
      reserved_max = h.reserved_max;
      free_min = h.free_min;
      free_max = h.free_max;
    } in
    let a = apply_value max_bytes (lookup "attachmentMaxBytes" config) l in
    let b = apply_value max_reserved_bytes (lookup "attachmentMaxReservedBytes" config) a in
    let c = apply_value min_free_bytes (lookup "attachmentMinFreeBytes" config) b in
    let slots = lookup "attachmentMaxPerPeer" config in
    let kept =
      slots_apply_value min_free_bytes (lookup "attachmentMinFreeBytes" config) b (λ e. cc)
      ∙ slots_apply_value max_reserved_bytes (lookup "attachmentMaxReservedBytes" config) a
          (λ e. cc)
      ∙ slots_apply_value max_bytes (lookup "attachmentMaxBytes" config) l (λ e. cc) in
    let few = slots_apply_slots slots c l.att_max_per_peer h.slots_min h.slots_max kept in
    let keys = apply_keys-InRange att_config_keys config l range in
    cut_ceiling-IsSane (apply_slots slots (apply_value max_per_peer slots c))
      (apply_slots-InRange slots (apply_value max_per_peer slots c) keys) few.0 few.1
