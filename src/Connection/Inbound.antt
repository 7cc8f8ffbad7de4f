-- ===== src/Connection/Inbound.antt =====
-- `_reader_inbound`: the reader of a socket that the peer dialed.
use lan_chat.Base.{
  ℕ, ◌+◌, String, Bool, true, false, not, ◌||◌, List, [], ◌∷◌, ◌++◌, map, length, ◌==◌, ltb, str_eq,
  if◌then◌else◌,
}
use lan_chat.Udp.Verify.{Crypto}
use lan_chat.Connection.Lines.{split}

abbrev pub max_frame_buf : ℕ
max_frame_buf = 524288

abbrev pub deferred_max_msgs : ℕ
deferred_max_msgs = 64

abbrev pub deferred_max_bytes : ℕ
deferred_max_bytes = 262144

pub data AuthState : Type 0 where
  idle challenged ok : AuthState

-- A message: the two of the handshake, or any other.
pub data Msg (M : Type 0) : Type 0 where
  identity : String → String → Msg M
  identity_proof : String → Msg M
  other : M → Msg M

-- The reader's variables. `handled` are the calls of `_handle_incoming`: the identity that each is
-- given, and the message.
pub record Session (M : Type 0) : Type 0 where
  pub auth_state : AuthState
  pub pid : String
  pub auth_cert : String
  pub deferred : List (Msg M)
  pub deferred_bytes : ℕ
  pub closed : Bool
  pub handled : List (String × Msg M)

pub record Reader (M : Type 0) : Type 0 where
  pub buf : List ℕ
  pub session : Session M

-- What `json.loads` makes of a line: a line that is blank or does not parse is skipped.
pub data Parsed (M : Type 0) : Type 0 where
  skipped no_object : Parsed M
  parsed : Msg M → Parsed M

-- What the reader takes from elsewhere: `json.loads`, the cryptography, the random nonce of its challenge, and whether the challenge can be sent.
pub record Source (M : Type 0) : Type 0 where
  pub parse : List ℕ → Parsed M
  pub crypto : Crypto
  pub nonce : String
  pub challenges : Bool

module _ {M : Type 0} where
  abbrev pub close : Session M → Session M
  close s = record s { closed = true }

  -- The bytes that are left are gone once the connection is closed.
  abbrev pub settled : Session M → List ℕ → Reader M
  settled s rest = record { buf = if s.closed then [] else rest; session = s }

-- A reader starts without bytes and messages.
abbrev pub new_reader : {M : Type 0} → Reader M
new_reader = record {
  buf = [];
  session = record {
    auth_state = idle;
    pid = "";
    auth_cert = "";
    deferred = [];
    deferred_bytes = 0;
    closed = false;
    handled = [];
  };
}

module _ {M : Type 0} (src : Source M) where
  abbrev pub is_bad_identity : String → String → Bool
  is_bad_identity claimed cert =
      str_eq claimed ""
      || str_eq claimed src.crypto.host_id
      || str_eq cert ""
      || not (str_eq (src.crypto.fingerprint cert) claimed)

  unfoldable pub on_identity : String → String → Session M → Session M
  on_identity claimed cert s = if is_bad_identity claimed cert then close s else record s {
    pid = claimed;
    auth_cert = cert;
    auth_state = challenged;
    closed = not src.challenges;
  }

  unfoldable pub on_proof : String → Session M → Session M
  on_proof sig s = if not (src.crypto.verify s.auth_cert src.nonce sig) then close s else record s {
    auth_state = ok;
    handled = s.handled ++ map (λ m. (s.pid, m)) s.deferred;
    deferred = [];
    deferred_bytes = 0;
  }

  unfoldable pub defer : List ℕ → Msg M → Session M → Session M
  defer line m s =
      let queue = s.deferred ++ m ∷ [] in
      let bytes = s.deferred_bytes + length line in
      record s {
        deferred = queue;
        deferred_bytes = bytes;
        closed = ltb deferred_max_msgs (length queue) || ltb deferred_max_bytes bytes;
      }

  unfoldable pub on_msg : AuthState → List ℕ → Msg M → Session M → Session M
  unfolding on_identity on_proof defer
  on_msg ok line m s = record s { handled = s.handled ++ (s.pid, m) ∷ [] }
  on_msg idle line (identity claimed cert) s = on_identity claimed cert s
  on_msg challenged line (identity_proof sig) s = on_proof sig s
  on_msg _ line m s = defer line m s

  unfoldable pub on_line : List ℕ → Session M → Session M
  unfolding on_msg
  on_line line s = elim (src.parse line) [
    | skipped ↦ s
    | no_object ↦ close s
    | parsed m ↦ on_msg s.auth_state line m s
  ]

  unfoldable pub on_lines : List (List ℕ) → Session M → Session M
  unfolding on_line
  on_lines [] s = s
  on_lines (l ∷ ls) s = let rest = on_lines ls (on_line l s) in if s.closed then s else rest

  -- One chunk from the socket: the empty one is its end.
  unfoldable pub feed : List ℕ → Reader M → Reader M
  unfolding on_lines split
  feed chunk r =
      let buf = r.buf ++ chunk in
      let (ls, rest) = split buf in
      if r.session.closed
      then settled r.session []
      else if length chunk == 0 || ltb max_frame_buf (length buf)
      then settled (close r.session) []
      else settled (on_lines ls r.session) rest

  unfoldable pub feed_all : List (List ℕ) → Reader M → Reader M
  unfolding feed
  feed_all [] r = r
  feed_all (c ∷ cs) r = feed_all cs (feed c r)
