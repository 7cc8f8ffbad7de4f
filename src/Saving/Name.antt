-- ===== src/Saving/Name.antt =====
-- `_safe_filename` of attachments.py. The library's test for printable characters is a parameter.
use Prim.Native.Char.{Char, code}
use Prim.Native.String.{[] as nil, ◌∷◌ as ◌∷ₛ◌}
use lan_chat.Base.{String, Bool, false, ◌&&◌, ◌||◌, ◌==◌, leb, if◌then◌else◌}
use lan_chat.Naming.{joined}

-- A slash, or a backslash, which is read as one.
abbrev pub is_separator : Char → Bool
is_separator c = (code c == 47) || (code c == 92)

abbrev pub is_edge : Char → Bool
is_edge c = (code c == 32) || (code c == 46)

unfoldable pub has_separator : String → Bool
has_separator nil = false
has_separator (c ∷ₛ s) = is_separator c || has_separator s

-- `rsplit("/", 1)[-1]`: what stands behind the last separator.
unfoldable pub last_part : String → String
unfolding has_separator
last_part nil = nil
last_part (c ∷ₛ s) =
    let rest = last_part s in if has_separator s then rest else if is_separator c then s else c ∷ₛ s

-- `strip(" .")`
unfoldable pub strip_start : String → String
strip_start nil = nil
strip_start (c ∷ₛ s) = let rest = strip_start s in if is_edge c then rest else c ∷ₛ s

abbrev pub put_kept : Char → String → String
put_kept c nil = if is_edge c then nil else c ∷ₛ nil
put_kept c (d ∷ₛ s) = c ∷ₛ (d ∷ₛ s)

unfoldable pub strip_end : String → String
strip_end nil = nil
strip_end (c ∷ₛ s) = put_kept c (strip_end s)

abbrev pub or_download : String → String
or_download nil = "download"
or_download (c ∷ₛ s) = c ∷ₛ s

unfoldable pub safe_filename : (Char → Bool) → String → String
unfolding last_part strip_start strip_end
safe_filename is_printable name =
    or_download
      (strip_end (strip_start (joined (λ c. is_printable c && leb 32 (code c)) (last_part name))))
