-- ===== src/Settings/Reads.antt =====
-- What is read after a command.
use lan_chat.Base.{
  ◌≡◌, refl, ◌∙◌, ap, String, true, List, if_cases, Bool-cases, inl, inr, if◌then◌else◌,
}
use lan_chat.Dict.{Dict, insert, lookup-insert_self}
use lan_chat.Friends.Types.{is_in}
use lan_chat.Settings.Config.{Value, text}
use lan_chat.Settings.Single.{
  statuses, panel_sizes, set_panel_size, set_status, apply_setting, shown, panel_size, status,
}

module _ (str : Value → String) (str-text : (s : String) → str (text s) ≡ s) where
  -- What is read of a value that must be one of some texts.
  read_in :
      (k d : String) (kinds : List String) (c : Dict Value)
      → is_in d kinds ≡ true
      → is_in (if is_in (shown str k d c) kinds then shown str k d c else d) kinds ≡ true
  read_in k d kinds c h =
      if_cases (λ s. is_in s kinds ≡ true) (is_in (shown str k d c) kinds) (λ e. e) (λ _. h)

  read_set :
      (k d s : String) (kinds : List String) (c : Dict Value)
      → let c' = if is_in s kinds then insert k (text s) c else c in
        (if is_in (shown str k d c') kinds then shown str k d c' else d) ≡ (
          if is_in s kinds then s else if is_in (shown str k d c) kinds then shown str k d c else d)
  read_set k d s kinds c = elim (Bool-cases (is_in s kinds)) [
    | inl e ↦ rw e (ap (λ x. if is_in x kinds then x else d) got ∙ rw e refl)
    | inr e ↦ rw e refl
  ]
    where
      got : shown str k d (insert k (text s) c) ≡ s
      got = rw (shown, lookup-insert_self k (text s) c) (str-text s)

  -- Whatever the configuration holds, the status and the size of the panel that are read are of the known
  -- ones; after a command they are what was asked for, if that is known, and else what they were.
  pub status-apply_setting :
      (s : String) (c : Dict Value)
      → (is_in (status str c) statuses ≡ true)
        × (is_in (panel_size str c) panel_sizes ≡ true)
        × (status str (apply_setting (set_status s) c)
            ≡ (if is_in s statuses then s else status str c))
        × (panel_size str (apply_setting (set_panel_size s) c)
            ≡ (if is_in s panel_sizes then s else panel_size str c))
  unfolding status panel_size apply_setting is_in
  status-apply_setting s c = (
    read_in "status" "available" statuses c refl,
    read_in "panelSize" "medium" panel_sizes c refl,
    read_set "status" "available" s statuses c,
    read_set "panelSize" "medium" s panel_sizes c,
  )
