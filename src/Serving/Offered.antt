-- ===== src/Serving/Offered.antt =====
-- A message that announces a local file goes with an offer of it.
use lan_chat.Base.{ℕ, ◌+◌, ◌≤◌, ◌<◌, ◌≡◌, String, true, false, Option, none, some, str_eq, if_cases}
use lan_chat.Dict.{Dict}
use lan_chat.Serving.Register.{Offer, register_attachment, get_attachment, registration_ttl}
use lan_chat.Serving.Window.{get_attachment-register_attachment}
use lan_chat.Serving.Send.{local_file, Post, described, posted, command_send}
use lan_chat.Friends.Types.{World, Env}

-- What sending a text with a local file comes to.
pub data IsPosted (w : World) (env : Env) (file_id to text path name : String) (p : Post)
    : Option ℕ → Post → Type 0 where
  offered :
      (size expires : ℕ) (offers : Dict Offer)
      → ((later : ℕ)
          → later < env.now_ms + 600000
          → get_attachment later file_id offers
            ≡ some (record { path = path; name = name; expires = expires }))
      → ((later : ℕ) → env.now_ms + 3600000 ≤ later → get_attachment later file_id offers ≡ none)
      → IsPosted w env file_id to text path name p
          (some size)
          (posted w env to text (some (described name size)) offers p)
  text_alone :
      str_eq (w.lib.strip text) "" ≡ false
      → IsPosted w env file_id to text path name p none (posted w env to text none p.offers p)
  nothing : str_eq (w.lib.strip text) "" ≡ true → IsPosted w env file_id to text path name p none p

-- The message of a readable file has its size, and the file is offered for ten minutes at least and an
-- hour at most; of an unreadable file only a text that is not blank is sent, and nothing is offered.
pub command_send-IsPosted :
    (w : World) (env : Env) (att_max_bytes : ℕ) (file_id to text path name : String)
    (stat : Option ℕ) (p : Post)
    → IsPosted w env file_id to text path name p stat
        (command_send w env att_max_bytes file_id to text (local_file path name stat) p)
unfolding command_send register_attachment
command_send-IsPosted w env m file_id to text path name none p =
    if_cases (IsPosted w env file_id to text path name p none) (str_eq (w.lib.strip text) "")
      nothing text_alone
command_send-IsPosted w env m file_id to text path name (some size) p =
    offered size (env.now_ms + registration_ttl m size)
      (register_attachment m env.now_ms (some size) file_id path name 0 p.offers).1
      (λ later h.
        (get_attachment-register_attachment m env.now_ms later size file_id path name p.offers).0 h)
      (λ later h.
        (get_attachment-register_attachment m env.now_ms later size file_id path name p.offers).1 h)
