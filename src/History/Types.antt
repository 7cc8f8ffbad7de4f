-- ===== src/History/Types.antt =====
-- The messages of history.py and what the module takes from the libraries it calls.
use lan_chat.Base.{ℕ, ◌+◌, ◌≤◌, String, ◌≡◌, Bool, false, Option, some, List, length, str_eq}

-- A message's attachment: its metadata, and the flags that the module sets. It is a non-empty dict.
pub record Attachment : Type 0 where
  pub name : String
  pub size : ℕ
  pub gone : Bool
  pub dismissed : Bool
  pub accepted : Bool

-- The fields of a message that the daemon reads; none is a missing key.
pub record Message : Type 0 where
  pub mid : Option String
  pub from : Option String
  pub to : Option String
  pub room : Option String
  pub text : String
  pub edited : Bool
  pub attachment : Option Attachment

-- What `json.loads` returns.
pub data Json : Type 0 where
  messages : List Message → Json
  null : Json
  other : Json

-- The calls of json, base64, the text codec and AES-GCM.
pub record Library : Type 0 where
  pub dumps : List Message → String
  pub loads : String → Option Json
  pub encode : String → List ℕ
  pub decode : List ℕ → Option String
  pub b64encode : List ℕ → String
  pub b64decode : String → Option (List ℕ)
  pub encrypt : List ℕ → List ℕ → List ℕ → List ℕ
  pub decrypt : List ℕ → List ℕ → List ℕ → Option (List ℕ)
  pub strip : String → String

-- The documented behaviour: each decoder undoes its encoder, a message list is printed as a JSON
-- list, and the ciphertext carries a tag of 16 bytes.
pub record IsFaithful (lib : Library) : Type 0 where
  pub loads-dumps : (ms : List Message) → lib.loads (lib.dumps ms) ≡ some (messages ms)
  pub decode-encode : (s : String) → lib.decode (lib.encode s) ≡ some s
  pub b64decode-b64encode : (bytes : List ℕ) → lib.b64decode (lib.b64encode bytes) ≡ some bytes
  pub decrypt-encrypt :
      (key nonce plain : List ℕ) → lib.decrypt key nonce (lib.encrypt key nonce plain) ≡ some plain
  pub tag : (key nonce plain : List ℕ) → length plain + 16 ≤ length (lib.encrypt key nonce plain)
  pub b64_not_empty : (bytes : List ℕ) → 1 ≤ length bytes → str_eq (lib.b64encode bytes) "" ≡ false
