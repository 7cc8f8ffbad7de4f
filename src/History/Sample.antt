-- ===== src/History/Sample.antt =====
-- A library for the tests: a message list is written as numbers, a number as digits one, and the
-- ciphertext is the plain text behind sixteen zeros.
mod Numbers
use Prim.Native.Nat.{Ordering, compare}
use Prim.Native.Char.{Char, char, code, IsLt, IsScalar}
use Prim.Native.String.{[] as nil, ◌∷◌ as ◌∷ₛ◌}
use lan_chat.Base.{
  ℕ, zero, suc, ◌+◌, ◌≤◌, String, ◌≡◌, refl, ap, ◌∙◌, Bool, true, false, Option, none, some, List,
  [], ◌∷◌, ◌++◌, arith, length, drop, replicate, str_eq, ◌==◌, if◌then◌else◌, length-append, eq_iff,
  Bool-cases, inl, inr, length-replicate, drop_append,
}
use text.Mathlib.TextLemmas.{cons≢nil}
use lan_chat.History.Types.{Attachment, Message, Json, messages, Library, IsFaithful}
use lan_chat.History.Sample.Numbers.{
  to_char, to_char-code, codes, from_codes, from_codes-codes, digits, numbers, numbers-digits,
  digits_not_empty,
}

-- A reader takes a value off the front.
abbrev Reader : Type 0 → Type 0
Reader A = List ℕ → Option (A × List ℕ)

abbrev put_string : String → List ℕ → List ℕ
put_string nil r = 0 ∷ r
put_string (c ∷ₛ s) r = 1 ∷ code c ∷ put_string s r

abbrev get_string : Reader String
get_string [] = none
get_string (zero ∷ r) = some (nil, r)
get_string (suc _ ∷ []) = none
get_string (suc _ ∷ n ∷ r) =
    let rest = get_string r in
    elim (to_char n) [
      | none ↦ none
      | some c ↦ elim rest [ none ↦ none | some (s, q) ↦ some (c ∷ₛ s, q) ]
    ]

get_string-put_string : (s : String) (r : List ℕ) → get_string (put_string s r) ≡ some (s, r)
get_string-put_string nil r = refl
get_string-put_string (c ∷ₛ s) r = rw (get_string, to_char-code c, get_string-put_string s r)

abbrev put_name : Option String → List ℕ → List ℕ
put_name none r = 0 ∷ r
put_name (some s) r = 1 ∷ put_string s r

abbrev get_name : Reader (Option String)
get_name [] = none
get_name (zero ∷ r) = some (none, r)
get_name (suc _ ∷ r) = elim (get_string r) [ none ↦ none | some (s, q) ↦ some (some s, q) ]

get_name-put_name : (o : Option String) (r : List ℕ) → get_name (put_name o r) ≡ some (o, r)
get_name-put_name none r = refl
get_name-put_name (some s) r = rw (get_name, get_string-put_string s r)

abbrev bit : Bool → ℕ
bit true = 1
bit false = 0

bit_back : (b : Bool) → (bit b == 1) ≡ b
bit_back true = refl
bit_back false = refl

abbrev put_attachment : Option Attachment → List ℕ → List ℕ
put_attachment none r = 0 ∷ r
put_attachment (some a) r =
    1 ∷ a.size ∷ bit a.gone ∷ bit a.dismissed ∷ bit a.accepted ∷ put_string a.name r

abbrev get_attachment : Reader (Option Attachment)
get_attachment (zero ∷ r) = some (none, r)
get_attachment (suc _ ∷ size ∷ g ∷ d ∷ k ∷ r) = elim (get_string r) [
  | none ↦ none
  | some (s, q) ↦ some (
    some (record { name = s; size = size; gone = g == 1; dismissed = d == 1; accepted = k == 1 }),
    q,
  )
]
get_attachment _ = none

get_attachment-put_attachment :
    (o : Option Attachment) (r : List ℕ) → get_attachment (put_attachment o r) ≡ some (o, r)
get_attachment-put_attachment none r = refl
get_attachment-put_attachment (some a) r = rw (
  get_attachment,
  get_string-put_string a.name r,
  bit_back a.gone,
  bit_back a.dismissed,
  bit_back a.accepted,
)

abbrev put_message : Message → List ℕ → List ℕ
put_message m r = put_name m.mid (
    put_name m.from (
      put_name m.to
        (put_name m.room (put_string m.text (bit m.edited ∷ put_attachment m.attachment r)))))

infixl 15 ◌>>=◌
abbrev ◌>>=◌ {ℓ κ} : {A : Type ℓ} {B : Type κ} → Option A → (A → Option B) → Option B
none >>= f = none
some a >>= f = f a

abbrev get_number : Reader ℕ
get_number [] = none
get_number (n ∷ r) = some (n, r)

abbrev get_message : Reader Message
get_message r0 = do
  (mid, r1) ← get_name r0
  (from, r2) ← get_name r1
  (to, r3) ← get_name r2
  (room, r4) ← get_name r3
  (text, r5) ← get_string r4
  (edited, r6) ← get_number r5
  (attachment, r7) ← get_attachment r6
  some (
    record {
      mid = mid;
      from = from;
      to = to;
      room = room;
      text = text;
      edited = edited == 1;
      attachment = attachment;
    },
    r7,
  )

get_message-put_message : (m : Message) (r : List ℕ) → get_message (put_message m r) ≡ some (m, r)
get_message-put_message m r = rw (
  get_message,
  get_name-put_name m.mid _,
  get_name-put_name m.from _,
  get_name-put_name m.to _,
  get_name-put_name m.room _,
  get_string-put_string m.text _,
  bit_back m.edited,
  get_attachment-put_attachment m.attachment r,
)

abbrev put_all : List Message → List ℕ
put_all [] = []
put_all (m ∷ ms) = put_message m (put_all ms)

abbrev get_all : ℕ → List ℕ → Option (List Message)
get_all zero r = some []
get_all (suc n) r = do (m, q) ← get_message r; ms ← get_all n q; some (m ∷ ms)

get_all-put_all : (ms : List Message) → get_all (length ms) (put_all ms) ≡ some ms
get_all-put_all [] = refl
get_all-put_all (m ∷ ms) = rw (get_all, get_message-put_message m (put_all ms), get_all-put_all ms)

abbrev get_json : List ℕ → Option Json
get_json [] = none
get_json (n ∷ r) = elim (get_all n r) [ none ↦ none | some ms ↦ some (messages ms) ]

unfoldable pub sample : Library
sample = record {
  dumps = λ ms. digits (length ms ∷ put_all ms);
  loads = λ text. get_json (numbers 0 text);
  encode = codes;
  decode = from_codes;
  b64encode = digits;
  b64decode = λ text. some (numbers 0 text);
  encrypt = λ key nonce plain. replicate 16 0 ++ plain;
  decrypt = λ key nonce ct. some (drop 16 ct);
  strip = λ text. text;
}

pub sample-IsFaithful : IsFaithful sample
unfolding sample
sample-IsFaithful = record {
  loads-dumps = λ ms. rw (numbers-digits (length ms ∷ put_all ms), get_json, get_all-put_all ms);
  decode-encode = from_codes-codes;
  b64decode-b64encode = λ bytes. ap some (numbers-digits bytes);
  decrypt-encrypt = λ key nonce plain. ap some (drop_append 16 (replicate 16 0) plain refl);
  tag = λ key nonce plain. omega (arith, length-append (replicate 16 0) plain);
  b64_not_empty = digits_not_empty;
}
