-- ===== src/Settings/Single.antt =====
-- The commands that set one value, and the functions that read them: `visibility`, `panel_size`,
-- `status`, `api_full_access` and the like of server.py.
use lan_chat.Base.{ℕ, String, Bool, true, false, none, some, List, [], ◌∷◌, str_eq, if◌then◌else◌}
use lan_chat.Base.Int.{ℤ, pos}
use lan_chat.Dict.{Dict, lookup, insert}
use lan_chat.Friends.Types.{is_in}
use lan_chat.Settings.Config.{Value, flag, text, num, is_blank}

abbrev pub statuses : List String
statuses = "available" ∷ "dnd" ∷ "away" ∷ "brb" ∷ []

abbrev pub panel_sizes : List String
panel_sizes = "small" ∷ "medium" ∷ "large" ∷ "xl" ∷ "full" ∷ []

-- The switches that a command sets.
pub data Switch : Type 0 where
  http_enabled api_full_access accept_requests sound_enabled typing_enabled show_typing : Switch
  read_receipts_enabled show_read_receipts : Switch

abbrev pub switch_key : Switch → String
switch_key http_enabled = "httpEnabled"
switch_key api_full_access = "apiFullAccess"
switch_key accept_requests = "acceptRequests"
switch_key sound_enabled = "soundEnabled"
switch_key typing_enabled = "typingEnabled"
switch_key show_typing = "showTyping"
switch_key read_receipts_enabled = "readReceiptsEnabled"
switch_key show_read_receipts = "showReadReceipts"

-- A number that is negative, or is no number, is 0.
pub data Setting : Type 0 where
  set_switch : Switch → Bool → Setting
  set_download_dir set_http_bind set_visibility set_panel_size set_status : String → Setting
  set_send_delay : ℤ → Setting
  set_peer_col_w : ℕ → Setting
  set_custom_size : ℕ → ℕ → Setting

unfoldable pub apply_setting : Setting → Dict Value → Dict Value
apply_setting (set_switch s on) c = insert (switch_key s) (flag on) c
apply_setting (set_download_dir dir) c = insert "downloadDir" (text dir) c
apply_setting (set_http_bind bind) c =
    insert "httpBind" (text (if str_eq bind "" then "127.0.0.1" else bind)) c
apply_setting (set_visibility v) c =
    insert "visibility" (text (if str_eq v "open" then "open" else "private")) c
apply_setting (set_panel_size size) c =
    if is_in size panel_sizes then insert "panelSize" (text size) c else c
apply_setting (set_status s) c = if is_in s statuses then insert "status" (text s) c else c
apply_setting (set_send_delay seconds) c = insert "sendDelay" (num seconds) c
apply_setting (set_peer_col_w w) c = insert "peerColW" (num (pos w)) c
apply_setting (set_custom_size w h) c =
    insert "customH" (num (pos h)) (insert "customW" (num (pos w)) c)

module _ (str : Value → String) where
  -- `str(config.get(k, d))`
  abbrev pub shown : String → String → Dict Value → String
  shown k d c = elim (lookup k c) [ none ↦ d | some v ↦ str v ]

  -- A value of one of the kinds, or the first of them.
  unfoldable pub panel_size : Dict Value → String
  panel_size c =
      let size = shown "panelSize" "medium" c in if is_in size panel_sizes then size else "medium"

  unfoldable pub status : Dict Value → String
  status c = let s = shown "status" "available" c in if is_in s statuses then s else "available"

  -- `str(config.get(k) or d)`
  abbrev given_or : String → String → Dict Value → String
  given_or k d c = if is_blank (lookup k c) then d else shown k d c

  unfoldable pub visibility : Dict Value → String
  visibility c = given_or "visibility" "private" c

  unfoldable pub http_bind : Dict Value → String
  http_bind c = given_or "httpBind" "127.0.0.1" c

-- `bool(config.get(k, d))`
unfoldable pub is_on : Switch → Bool → Dict Value → Bool
is_on s d c =
    if is_blank (lookup (switch_key s) c)
    then (elim (lookup (switch_key s) c) [ none ↦ d | some v ↦ false ])
    else true
