-- ===== src/Friends/Types.antt =====
-- The part of the daemon's state that its friend operations use: server.py's `State`, the `friends` of
-- the configuration, and the ledger of fingerprints.
use Prim.Native.Char.{Char}
use lan_chat.Base.{
  ℕ, String, Bool, true, false, not, Option, List, [], ◌∷◌, ◌++◌, str_eq, if◌then◌else◌, keep,
}
use lan_chat.Dict.{Dict}
use lan_chat.History.Types.{Attachment, Message, Library}
use lan_chat.History.Store.{Store, Env as HistoryEnv, append_history}
use lan_chat.Held.Queue.{Pending}
use lan_chat.Udp.Blob.{Printer}
use lan_chat.Udp.Seen.{Seen}
use lan_chat.Udp.Verify.{Crypto}
use lan_chat.Rooms.Types.{Rooms, Effect as RoomEffect}

pub record Friend : Type 0 where
  pub id : String
  pub address : String
  pub name : String
  pub confirmed : Bool

pub record Peer : Type 0 where
  pub id : String
  pub name : String
  pub address : String
  pub port : ℕ
  pub last_seen : ℕ

-- What leaves the daemon: a friend packet or a control frame to a peer, what a room sends, a file
-- that is served, a frame of a transfer that goes on to the downloads, a message for the connection
-- of its peer, and the request for a file or its refusal.
pub data Effect : Type 0 where
  udp_packet control : String → String → Effect
  of_room : RoomEffect → Effect
  serve : String → String → String → Effect
  transfer_frame : String → String → String → Effect
  direct : String → Message → Effect
  file_request : String → String → String → Effect
  file_error : String → String → String → String → Effect

pub record Daemon : Type 0 where
  pub friends : List Friend
  pub config_file : List Friend
  pub ledger : Dict String
  pub online : Bool
  pub accepts : Bool
  pub peers : Dict Peer
  pub request_outgoing : List String
  pub pending_sent : Dict (List Message)
  pub pending : Pending
  pub seen : Seen
  pub store : Store
  pub rooms : Rooms
  pub outbox : List Effect

-- What the daemon takes from libraries: the calls of the history, the cryptography of the packets,
-- the length of an attachment in JSON, the hash and the test of characters for names, `str.strip`.
pub record World : Type 0 where
  pub lib : Library
  pub printer : Printer
  pub crypto : Crypto
  pub json_bytes : Attachment → Option ℕ
  pub digest : String → ℕ × ℕ
  pub is_printable : Char → Bool

-- What a call finds: the clock in seconds and in milliseconds, a fresh id, whether the files of the
-- configuration and of the replay map can be written, which peers a packet or a frame reaches, which
-- transfers are active, and what the history finds.
pub record Env : Type 0 where
  pub now : ℕ
  pub now_ms : ℕ
  pub fresh : String
  pub saves : Bool
  pub udp : String → Bool
  pub sends : String → Bool
  pub downloading : String → String → Bool
  pub display_name : String
  pub hist : HistoryEnv

-- `k in s`, `s.add(k)`, `s.discard(k)`
unfoldable pub is_in : String → List String → Bool
is_in k [] = false
is_in k (x ∷ xs) = if str_eq x k then true else is_in k xs

unfoldable pub add_to : String → List String → List String
unfolding is_in
add_to k xs = if is_in k xs then xs else xs ++ k ∷ []

unfoldable pub discard : String → List String → List String
discard k xs = keep (λ x. not (str_eq x k)) xs

abbrev pub send : Effect → Daemon → Daemon
send e s = record s { outbox = s.outbox ++ e ∷ [] }

unfoldable pub append_all : Library → HistoryEnv → List Message → Store → Store
unfolding append_history
append_all lib env [] st = st
append_all lib env (m ∷ ms) st = append_all lib env ms (append_history lib env m st)

-- `_reveal`
abbrev pub reveal : World → Env → List Message → Daemon → Daemon
reveal w env held s = record s { store = append_all w.lib env.hist held s.store }
