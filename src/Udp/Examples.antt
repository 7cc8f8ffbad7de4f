-- ===== src/Udp/Examples.antt =====
-- Tests of the signed packets: numbers are printed as digits one behind a sign, a certificate is its
-- own fingerprint, and one text is the only good signature.
use Prim.Native.String.{[] as nil, ◌∷◌ as ◌∷ₛ◌}
use Prim.Native.Char.{code}
use text.Mathlib.TextLemmas.{nil≢cons, cons≢nil, head-eq_of_cons-eq, tail-eq_of_cons-eq}
use lan_chat.Base.{
  ℕ, zero, suc, String, ◌≡◌, ◌≢◌, refl, ap, true, false, some, List, [], ◌∷◌, str_eq, ◌==◌, none,
}
use lan_chat.Base.Int.{ℤ, pos, negsuc}
use lan_chat.Dict.{insert, has}
use lan_chat.Udp.Blob.{Printer, HasNoColon, IsDecimal, udp_seen_key}
use lan_chat.Udp.Seen.{Seen, udp_seen_load, udp_seen_check}
use lan_chat.Udp.Verify.{
  Packet, Crypto, is_outside, verify_udp_friend_packet, IsGenuine,
  verify_udp_friend_packet-IsGenuine,
}
use lan_chat.Udp.Replay.{Event, packet, restart}

abbrev ones : ℕ → String
ones zero = nil
ones (suc n) = "1" ∷ₛ ones n

ones_inj : (m n : ℕ) → ones m ≡ ones n → m ≡ n
ones_inj zero zero e = refl
ones_inj zero (suc n) e = absurd (nil≢cons e)
ones_inj (suc m) zero e = absurd (cons≢nil e)
ones_inj (suc m) (suc n) e = ap (λ k. suc k) (ones_inj m n (tail-eq_of_cons-eq e))

abbrev signed_ones : ℤ → String
signed_ones (pos n) = "+" ∷ₛ ones n
signed_ones (negsuc n) = "-" ∷ₛ ones n

signed_ones_inj : (i j : ℤ) → signed_ones i ≡ signed_ones j → i ≡ j
signed_ones_inj (pos m) (pos n) e = ap (λ k. pos k) (ones_inj m n (tail-eq_of_cons-eq e))
signed_ones_inj (pos m) (negsuc n) e =
    let h : true ≡ false = ap (λ c. code c == 43) (head-eq_of_cons-eq e) in absurd (cc)
signed_ones_inj (negsuc m) (pos n) e =
    let h : false ≡ true = ap (λ c. code c == 43) (head-eq_of_cons-eq e) in absurd (cc)
signed_ones_inj (negsuc m) (negsuc n) e = ap (λ k. negsuc k) (ones_inj m n (tail-eq_of_cons-eq e))

ones-HasNoColon : (n : ℕ) → HasNoColon (ones n)
ones-HasNoColon zero = tt
ones-HasNoColon (suc n) =
    (λ e. let h : true ≡ false = ap (λ c. code c == 49) e in absurd (cc), ones-HasNoColon n)

abbrev printer : Printer
printer = record { nat = ones; int = signed_ones }

printer-IsDecimal : IsDecimal printer
printer-IsDecimal = record {
  nat_inj = ones_inj;
  int_inj = signed_ones_inj;
  nat_no_colon = ones-HasNoColon;
}

abbrev crypto : Crypto
crypto = record {
  host_id = "bob";
  fingerprint = λ cert. cert;
  verify = λ cert blob sig. str_eq sig "good";
}

abbrev hello : Packet
hello = record {
  id = "ann";
  cert = "ann";
  nonce = "n1";
  sig = "good";
  to = "bob";
  iat = some (pos 1000);
  exp = some (pos 1120);
}

abbrev kind : String
kind = "friend-request"

abbrev start : Seen
start = record { udp_seen = []; udp_seen_loaded = false; file = none }

hello_taken :
    (verify_udp_friend_packet printer crypto 1001000 true "friend-request" hello start).0 ≢ ""
unfolding verify_udp_friend_packet is_outside udp_seen_check udp_seen_load insert has udp_seen_key
hello_taken e = cc

verify_udp_friend_packet-IsGenuine_example :
    ((verify_udp_friend_packet printer crypto 1001000 true "friend-request" hello start).0 ≡ "ann")
    × ((iat : ℤ) × (exp : ℤ) × IsGenuine printer crypto 1001000 "friend-request" hello iat exp)
verify_udp_friend_packet-IsGenuine_example =
    verify_udp_friend_packet-IsGenuine printer crypto 1001000 true "friend-request" hello start
      hello_taken

abbrev events : List Event
events = packet 1002000 "friend-request" hello ∷ restart ∷ []
