-- ===== src/Friends/Sample.antt =====
-- A daemon to try the definitions on: one text stands for every file, and a certificate is its own
-- fingerprint.
use lan_chat.Base.{true, false, none, some, [], ◌∷◌}
use lan_chat.History.Types.{messages}
use lan_chat.Friends.Types.{Friend, Daemon, World, Env}

abbrev pub world : World
world = record {
  lib = record {
    dumps = λ ms. "history";
    loads = λ s. some (messages []);
    encode = λ s. [];
    decode = λ bytes. some "";
    b64encode = λ bytes. "history";
    b64decode = λ s. some [];
    encrypt = λ key nonce plain. plain;
    decrypt = λ key nonce plain. some plain;
    strip = λ s. s;
  };
  printer = record { nat = λ n. ""; int = λ i. "" };
  crypto = record { host_id = "ann"; fingerprint = λ cert. cert; verify = λ cert blob sig. true };
  json_bytes = λ a. none;
  digest = λ s. (0, 0);
  is_printable = λ c. true;
}

abbrev pub env : Env
env = record {
  now = 100;
  now_ms = 100000;
  fresh = "m1";
  saves = false;
  udp = λ pid. true;
  sends = λ pid. true;
  downloading = λ file_id pid. false;
  display_name = "Ann";
  hist = record { crypto = false; key = []; nonce = []; fresh_mid = "m2"; writes = true };
}

-- Bob was asked; Carl is a friend whom the ledger has and the configuration file lists as pending.
abbrev pub carl : Friend
carl = record { id = "carl"; address = ""; name = "Carl"; confirmed = true }

abbrev pub old_carl : Friend
old_carl = record carl { confirmed = false }

abbrev pub daemon : Daemon
daemon = record {
  friends = carl ∷ [];
  config_file = old_carl ∷ [];
  ledger = ("carl", "Carl") ∷ [];
  online = true;
  accepts = true;
  peers = [];
  request_outgoing = "bob" ∷ [];
  pending_sent = [];
  pending = record { pending_first = []; pending_first_bytes = [] };
  seen = record { udp_seen = []; udp_seen_loaded = true; file = none };
  store = record { history = []; seen_mids = []; file = none };
  rooms = record { rooms = []; rooms_cache = []; rooms_file = []; cache_file = [] };
  outbox = [];
}
