-- ===== src/Settings/Reach.antt =====
-- A limit that the user asks for is in force, within its range.
use lan_chat.Base.{
  ℕ, ◌*◌, ◌≤◌, ◌≡◌, refl, sym, ◌∙◌, ap, Bool, false, arith, min, ltb, if_cases, Bool-cases, inl,
  inr, if◌then◌else◌, ne_of_str_eq,
}
use lan_chat.Base.Int.{pos}
use lan_chat.Dict.{Dict, lookup, insert, lookup-insert_self, lookup-insert_ne}
use lan_chat.Download.Types.{gib, att_limit_min, att_limit_hard_max, att_max_concurrent}
use lan_chat.Download.Limits.{ConfigValue, number, apply_config_limits, IsSane}
use lan_chat.Settings.Given.{
  next, reserved_key, bytes_key, slots_key, apply_config_limits-reserved, apply_config_limits-bytes,
  apply_config_limits-slots, given,
}
use lan_chat.Settings.Capacity.{Settings, with_budget, set_attachment_max, set_per_peer_downloads}

-- The configuration gives the byte limits that are in force, and the ceiling is not cut.
pub record IsInForce (s : Settings) : Type 0 where
  pub bytes : next (lookup bytes_key s.config) s.limits.att_max_bytes ≡ s.limits.att_max_bytes
  pub reserved :
      next (lookup reserved_key s.config) s.limits.att_max_reserved_bytes
      ≡ s.limits.att_max_reserved_bytes

-- What `with_budget` has under the key of the budget.
with_budget-next :
    (needed raised : ℕ) (s : Settings)
    → next (lookup reserved_key s.config) s.limits.att_max_reserved_bytes
      ≡ s.limits.att_max_reserved_bytes
    → att_limit_min ≤ raised
    → next (lookup reserved_key (with_budget needed raised s)) s.limits.att_max_reserved_bytes ≡ (
        if ltb s.limits.att_max_reserved_bytes needed
        then min raised att_limit_hard_max
        else s.limits.att_max_reserved_bytes)
with_budget-next needed raised s h le =
    elim (Bool-cases (ltb s.limits.att_max_reserved_bytes needed)) [
      | inl e ↦
          rw
            (
              e,
              lookup-insert_self reserved_key (number (pos (min raised att_limit_hard_max)))
                  s.config,
            )
            (ground (arith, le))
      | inr e ↦ rw e h
    ]

-- The ceiling of the configuration is not touched.
with_budget-bytes :
    (needed raised : ℕ) (s : Settings)
    → lookup bytes_key (with_budget needed raised s) ≡ lookup bytes_key s.config
with_budget-bytes needed raised s =
    if_cases (λ c. lookup bytes_key c ≡ lookup bytes_key s.config)
      (ltb s.limits.att_max_reserved_bytes needed)
      (λ _.
        lookup-insert_ne reserved_key bytes_key _ s.config
          (ne_of_str_eq reserved_key bytes_key refl))
      (λ _. refl)

asked_value :
    (asked : ℕ) (v : ℕ) (config : Dict ConfigValue)
    → att_limit_min ≤ asked
    → next (lookup bytes_key (insert bytes_key (number (pos asked)) config)) v
      ≡ min asked att_limit_hard_max
asked_value asked v config le =
    rw (lookup-insert_self bytes_key (number (pos asked)) config) (ground (arith, le))

covered :
    (want reserved : ℕ)
    → reserved ≤ att_limit_hard_max
    → min
        (min want att_limit_hard_max)
        (if ltb reserved want then min (2 * want) att_limit_hard_max else reserved)
      ≡ min want att_limit_hard_max
covered want reserved h = ground (arith, h)

grown :
    (want raised reserved : ℕ)
    → reserved ≤ att_limit_hard_max
    → want ≤ raised
    → reserved ≤ (if ltb reserved want then min raised att_limit_hard_max else reserved)
grown want raised reserved h le = ground (arith, h, le)

-- A ceiling of at least one gibibyte that the user asks for is in force, up to the greatest that there
-- is, also above the budget, which does not shrink; the configuration then gives what is in force.
pub set_attachment_max-IsInForce :
    (saves : Bool) (gibs : ℕ) (s : Settings)
    → IsSane s.limits
    → IsInForce s
    → 1 ≤ gibs
    → let s' = set_attachment_max saves gibs s in
      (s'.limits.att_max_bytes ≡ min (gibs * gib) att_limit_hard_max)
      × (s.limits.att_max_reserved_bytes ≤ s'.limits.att_max_reserved_bytes)
      × IsInForce s'
unfolding set_attachment_max
set_attachment_max-IsInForce saves gibs s sane h le = rw few (
  reached,
  kept,
  record {
    bytes = asked_value want _ (with_budget want (2 * want) s) (omega (arith, le)) ∙ sym reached;
    reserved = given config s.limits;
  },
)
  where
    few : ltb gibs 1 ≡ false
    few = ground (arith, le)

    want : ℕ
    want = gibs * gib

    config : Dict ConfigValue
    config = insert bytes_key (number (pos want)) (with_budget want (2 * want) s)

    budget : next (lookup reserved_key config) s.limits.att_max_reserved_bytes ≡ (
        if ltb s.limits.att_max_reserved_bytes want
        then min (2 * want) att_limit_hard_max
        else s.limits.att_max_reserved_bytes)
    budget =
        ap (λ o. next o s.limits.att_max_reserved_bytes)
          (lookup-insert_ne bytes_key reserved_key (number (pos want))
            (with_budget want (2 * want) s) (ne_of_str_eq bytes_key reserved_key refl))
        ∙ with_budget-next want (2 * want) s h.reserved (omega (arith, le))

    bytes :
        (apply_config_limits config s.limits).att_max_bytes
        ≡ min
            (min want att_limit_hard_max)
            (next (lookup reserved_key config) s.limits.att_max_reserved_bytes)
    bytes =
        apply_config_limits-bytes config s.limits
        ∙ ap (λ n. min n (next (lookup reserved_key config) s.limits.att_max_reserved_bytes))
            (asked_value want s.limits.att_max_bytes (with_budget want (2 * want) s)
              (omega (arith, le)))

    reached :
        (apply_config_limits config s.limits).att_max_bytes ≡ min (gibs * gib) att_limit_hard_max
    reached =
        bytes
        ∙ ap (min (min want att_limit_hard_max)) budget
        ∙ covered want s.limits.att_max_reserved_bytes sane.reserved_max

    kept :
        s.limits.att_max_reserved_bytes
        ≤ (apply_config_limits config s.limits).att_max_reserved_bytes
    kept =
        rw (apply_config_limits-reserved config s.limits, budget)
          (grown want (2 * want) s.limits.att_max_reserved_bytes sane.reserved_max (omega arith))

-- What a number of slots does to the limits.
pub record IsScaled (slots : ℕ) (s s' : Settings) : Type 0 where
  pub per_peer : s'.limits.att_max_per_peer ≡ min slots att_max_concurrent
  pub budget : s'.limits.att_max_reserved_bytes ≡ (
      if ltb s.limits.att_max_reserved_bytes (slots * s.limits.att_max_bytes)
      then min (slots * s.limits.att_max_bytes) att_limit_hard_max
      else s.limits.att_max_reserved_bytes)
  pub ceiling :
      s'.limits.att_max_bytes
      ≡ min
          (next (lookup bytes_key s.config) s.limits.att_max_bytes)
          s'.limits.att_max_reserved_bytes
  pub given_again :
      next (lookup reserved_key s'.config) s'.limits.att_max_reserved_bytes
      ≡ s'.limits.att_max_reserved_bytes

-- Where the limits are in their ranges and the budget in force is the one of the configuration: the number
-- of slots is in force, up to eight; the budget grows to what the slots that were asked for take at the
-- ceiling in force, up to the greatest that there is, or is as before where it covers them; the ceiling
-- becomes the one that the configuration asks for, cut to the new budget, so that one that the old
-- budget cut grows; and the configuration gives the new budget.
pub set_per_peer_downloads-IsScaled :
    (saves : Bool) (slots : ℕ) (s : Settings)
    → IsSane s.limits
    → next (lookup reserved_key s.config) s.limits.att_max_reserved_bytes
      ≡ s.limits.att_max_reserved_bytes
    → 1 ≤ slots
    → IsScaled slots s (set_per_peer_downloads saves slots s)
unfolding set_per_peer_downloads
set_per_peer_downloads-IsScaled saves slots s sane h le = rw few (record {
  per_peer =
      apply_config_limits-slots config s.limits slots
        (lookup-insert_self slots_key (number (pos slots)) _) le;
  budget = budget;
  ceiling = ceiling;
  given_again = given config s.limits;
})
  where
    few : ltb slots 1 ≡ false
    few = ground (arith, le)

    needed : ℕ
    needed = slots * s.limits.att_max_bytes

    config : Dict ConfigValue
    config = insert slots_key (number (pos slots)) (with_budget needed needed s)

    enough : att_limit_min ≤ needed
    enough = grind (arith, sane.bytes_min, le)

    budget : (apply_config_limits config s.limits).att_max_reserved_bytes ≡ (
        if ltb s.limits.att_max_reserved_bytes needed
        then min needed att_limit_hard_max
        else s.limits.att_max_reserved_bytes)
    budget =
        apply_config_limits-reserved config s.limits
        ∙ ap (λ o. next o s.limits.att_max_reserved_bytes)
            (lookup-insert_ne slots_key reserved_key (number (pos slots))
              (with_budget needed needed s) (ne_of_str_eq slots_key reserved_key refl))
        ∙ with_budget-next needed needed s h enough

    bytes :
        next (lookup bytes_key config) s.limits.att_max_bytes
        ≡ next (lookup bytes_key s.config) s.limits.att_max_bytes
    bytes =
        ap (λ o. next o s.limits.att_max_bytes)
          (lookup-insert_ne slots_key bytes_key (number (pos slots)) (with_budget needed needed s)
              (ne_of_str_eq slots_key bytes_key refl)
            ∙ with_budget-bytes needed needed s)

    ceiling :
        (apply_config_limits config s.limits).att_max_bytes
        ≡ min
            (next (lookup bytes_key s.config) s.limits.att_max_bytes)
            (apply_config_limits config s.limits).att_max_reserved_bytes
    ceiling =
        apply_config_limits-bytes config s.limits
        ∙ ap (λ n. min n (next (lookup reserved_key config) s.limits.att_max_reserved_bytes)) bytes
        ∙ ap (min (next (lookup bytes_key s.config) s.limits.att_max_bytes))
            (sym (apply_config_limits-reserved config s.limits))
