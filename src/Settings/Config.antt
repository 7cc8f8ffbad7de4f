-- ===== src/Settings/Config.antt =====
-- `load_config` of server.py, and the commands that set one value.
use Prim.Native.String.{count}
use lan_chat.Base.{
  ℕ, zero, suc, String, Bool, true, false, not, Option, none, some, [], ◌∷◌, ltb, str_eq,
  if◌then◌else◌,
}
use lan_chat.Base.Int.{ℤ, pos, negsuc}
use lan_chat.Dict.{Dict, lookup, insert, has}
use lan_chat.Friends.Command.{default_port}
use lan_chat.Download.Types.{Limits, default_limits}
use lan_chat.Download.Limits.{ConfigValue, boolean, number, other, apply_config_limits}

-- A value of the configuration. A list or an object is opaque.
pub data Value : Type 0 where
  flag : Bool → Value
  text : String → Value
  num : ℤ → Value
  null : Value
  listed : ℕ → Value

-- What the start finds: the name of this host, its download directory, a fresh token and a fresh
-- id, and `str.strip` and `str`.
pub record Host : Type 0 where
  pub friendly : String
  pub downloads : String
  pub fresh_token : String
  pub fresh_id : String
  pub strip : String → String
  pub str : Value → String

abbrev pub default_http_port : ℕ
default_http_port = 4814

-- `d.setdefault(k, v)`
abbrev pub setdefault : String → Value → Dict Value → Dict Value
setdefault k v c = if has k c then c else insert k v c

unfoldable pub setdefaults : Dict Value → Dict Value → Dict Value
setdefaults [] c = c
setdefaults ((k, v) ∷ ds) c = setdefaults ds (setdefault k v c)

-- A configuration without a file.
abbrev pub first_config : Host → Dict Value
first_config h =
    ("token", text h.fresh_token)
    ∷ ("port", num (pos default_port))
    ∷ ("displayName", text h.friendly)
    ∷ []

abbrev pub early_defaults : Dict Value
early_defaults =
    ("httpEnabled", flag false)
    ∷ ("httpPort", num (pos default_http_port))
    ∷ ("httpBind", text "127.0.0.1")
    ∷ ("visibility", text "private")
    ∷ ("acceptRequests", flag true)
    ∷ []

abbrev pub limit_defaults : Dict Value
limit_defaults =
    ("apiFullAccess", flag false)
    ∷ ("attachmentMaxBytes", num (pos default_limits.att_max_bytes))
    ∷ ("attachmentMaxReservedBytes", num (pos default_limits.att_max_reserved_bytes))
    ∷ ("attachmentMinFreeBytes", num (pos default_limits.att_min_free_bytes))
    ∷ []

abbrev pub late_defaults : Host → Dict Value
late_defaults h =
    ("panelSize", text "medium")
    ∷ ("customW", num (pos 0))
    ∷ ("customH", num (pos 0))
    ∷ ("peerColW", num (pos 0))
    ∷ ("status", text "available")
    ∷ ("soundEnabled", flag true)
    ∷ ("typingEnabled", flag true)
    ∷ ("showTyping", flag true)
    ∷ ("readReceiptsEnabled", flag true)
    ∷ ("showReadReceipts", flag true)
    ∷ ("online", flag true)
    ∷ ("friends", listed 0)
    ∷ ("downloadDir", text h.downloads)
    ∷ ("sendDelay", num (pos 0))
    ∷ ("id", text h.fresh_id)
    ∷ []

-- `not config.get(k)`
abbrev pub is_blank : Option Value → Bool
is_blank none = true
is_blank (some (flag b)) = not b
is_blank (some (text s)) = str_eq s ""
is_blank (some (num (pos zero))) = true
is_blank (some (num (pos (suc n)))) = false
is_blank (some (num (negsuc n))) = false
is_blank (some null) = true
is_blank (some (listed n)) = not (ltb 0 n)

unfoldable pub named : Host → Dict Value → Dict Value
named h c =
    if is_blank (lookup "displayName" c) then insert "displayName" (text h.friendly) c else c

-- The value as `apply_config_limits` reads it.
abbrev pub as_limit : Value → ConfigValue
as_limit (flag b) = boolean
as_limit (num z) = number z
as_limit _ = other

abbrev pub limits_of : Dict Value → Dict ConfigValue
limits_of [] = []
limits_of ((k, v) ∷ c) = (k, as_limit v) ∷ limits_of c

-- The configuration that is written to the file.
unfoldable pub completed : Host → Option (Dict Value) → Dict Value
unfolding setdefaults named
completed h file =
    let c : Dict Value = elim file [ none ↦ first_config h | some c ↦ c ] in
    setdefaults (late_defaults h)
      (setdefaults limit_defaults (named h (setdefaults early_defaults c)))

-- The limits that it sets, before the late defaults.
unfoldable pub loaded_limits : Host → Option (Dict Value) → Limits → Limits
unfolding setdefaults named apply_config_limits
loaded_limits h file l =
    let c : Dict Value = elim file [ none ↦ first_config h | some c ↦ c ] in
    apply_config_limits
      (limits_of (setdefaults limit_defaults (named h (setdefaults early_defaults c)))) l

-- The token that is used, and whether it is reported as too short.
unfoldable pub loaded_token : Host → Dict Value → String
loaded_token h c = elim (lookup "token" c) [ none ↦ "" | some v ↦ h.strip (h.str v) ]

abbrev pub is_short : String → Bool
is_short token = ltb (count token) 8
