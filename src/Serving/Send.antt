-- ===== src/Serving/Send.antt =====
-- The commands about messages: `send`, `clearChat`, `clearAllChats`, `deleteMessage` and `editMessage`
-- of server.py's `handle_command`.
use lan_chat.Base.{ℕ, String, false, Option, none, some, str_eq, if◌then◌else◌}
use lan_chat.Dict.{Dict}
use lan_chat.History.Types.{Attachment}
use lan_chat.History.Store.{clear_history_for_peer, clear_all_history, delete_message, edit_message}
use lan_chat.Serving.Register.{Offer, register_attachment}
use lan_chat.Friends.Types.{Daemon, World, Env}
use lan_chat.Friends.Send.{send_message}

-- The attachment of the command: none, one that stands as it is, or a local file with its size where it
-- can be read.
pub data Given : Type 0 where
  no_file : Given
  metadata : Attachment → Given
  local_file : String → String → Option ℕ → Given

pub record Post : Type 0 where
  pub daemon : Daemon
  pub offers : Dict Offer

abbrev pub described : String → ℕ → Attachment
described name size = record {
  name = name;
  size = size;
  gone = false;
  dismissed = false;
  accepted = false;
}

abbrev pub size_of : Option ℕ → ℕ
size_of none = 0
size_of (some size) = size

abbrev pub posted : World → Env → String → String → Option Attachment → Dict Offer → Post → Post
posted w env to text attachment offers p = record {
  daemon = (send_message w env to text attachment p.daemon).1;
  offers = offers;
}

-- `att_max_bytes` is the ceiling of a file, and `file_id` a fresh id.
unfoldable pub command_send : World → Env → ℕ → String → String → String → Given → Post → Post
unfolding register_attachment send_message
command_send w env att_max_bytes file_id to text no_file p = posted w env to text none p.offers p
command_send w env att_max_bytes file_id to text (metadata a) p =
    posted w env to text (some a) p.offers p
command_send w env att_max_bytes file_id to text (local_file path name stat) p =
    let (ok, offers) =
      register_attachment att_max_bytes env.now_ms stat file_id path name 0 p.offers in
    if ok
    then posted w env to text (some (described name (size_of stat))) offers p
    else if str_eq (w.lib.strip text) ""
    then record p { offers = offers }
    else posted w env to text none offers p

pub data MessageCommand : Type 0 where
  clear_chat delete : String → MessageCommand
  clear_all_chats : MessageCommand
  edit : String → String → MessageCommand

unfoldable pub message_command : World → Env → MessageCommand → Daemon → Daemon
unfolding clear_history_for_peer clear_all_history delete_message edit_message
message_command w env (clear_chat peer) s = record s {
  store = (clear_history_for_peer w.lib env.hist peer s.store).1;
}
message_command w env (delete mid) s = record s {
  store = (delete_message w.lib env.hist mid s.store).1;
}
message_command w env clear_all_chats s = record s {
  store = (clear_all_history w.lib env.hist s.store).1;
}
message_command w env (edit mid text) s = record s {
  store = (edit_message w.lib env.hist mid text s.store).1;
}
