-- ===== src/Udp/Verify.antt =====
-- `_verify_udp_friend_packet`.
use lan_chat.Base.{
  ℕ, ◌+◌, ◌*◌, String, ◌≡◌, ◌≢◌, refl, Bool, true, false, not, ◌||◌, Option, none, some, str_eq,
  if◌then◌else◌, Bool-cases, Option-cases, inl, inr, eq_iff, arith,
}
use lan_chat.Base.Int.{ℤ, pos, ltb_ℤ, plus, thousand}
use lan_chat.Udp.Blob.{Printer, udp_friend_sig_blob}
use lan_chat.Udp.Seen.{Seen, udp_sig_validity, udp_sig_clock_slack, is_past, udp_seen_check}

-- The fields of a packet; an instant is none where it is no integer.
pub record Packet : Type 0 where
  pub id : String
  pub cert : String
  pub nonce : String
  pub sig : String
  pub to : String
  pub iat : Option ℤ
  pub exp : Option ℤ

-- This host's id, and the calls of the cryptography library: a certificate's fingerprint and the
-- test of a signature.
pub record Crypto : Type 0 where
  pub host_id : String
  pub fingerprint : String → String
  pub verify : String → String → String → Bool

-- The instants are inverted, too far apart, past or in the future.
unfoldable pub is_outside : ℤ → ℤ → ℕ → Bool
is_outside iat exp now =
    not (ltb_ℤ iat exp)
    || ltb_ℤ (plus iat (udp_sig_validity + udp_sig_clock_slack)) exp
    || is_past exp now
    || ltb_ℤ (pos (now + udp_sig_clock_slack * 1000)) (thousand iat)

-- The verified id, or "" for a packet seen before.
abbrev pub honoured : String → Bool × Seen → String × Seen
honoured id (fresh, s) = if fresh then (id, s) else ("", s)

module _ (printer : Printer) (crypto : Crypto) where
  unfoldable pub verify_udp_friend_packet : ℕ → Bool → String → Packet → Seen → String × Seen
  unfolding is_outside udp_seen_check
  verify_udp_friend_packet now saves kind p s =
      if str_eq p.id "" || str_eq p.id crypto.host_id
      then ("", s)
      else if not (str_eq (crypto.fingerprint p.cert) p.id)
      then ("", s)
      else if not (str_eq p.to crypto.host_id)
      then ("", s)
      else elim p.iat [
        | none ↦ ("", s)
        | some iat ↦ elim p.exp [
          | none ↦ ("", s)
          | some exp ↦
              if is_outside iat exp now
              then ("", s)
              else if str_eq p.nonce ""
                  || not (
                      crypto.verify p.cert
                        (udp_friend_sig_blob printer kind p.id crypto.host_id p.nonce iat exp)
                        p.sig)
              then ("", s)
              else honoured p.id (udp_seen_check printer now saves p.id p.nonce exp s)
        ]
      ]

  -- What is known of a packet that comes to the replay test.
  pub record IsGenuine (now : ℕ) (kind : String) (p : Packet) (iat exp : ℤ) : Type 0 where
    pub instants : (p.iat ≡ some iat) × (p.exp ≡ some exp)
    pub named : str_eq p.id "" ≡ false
    pub foreign : str_eq p.id crypto.host_id ≡ false
    pub own_cert : crypto.fingerprint p.cert ≡ p.id
    pub addressed : p.to ≡ crypto.host_id
    pub ordered : ltb_ℤ iat exp ≡ true
    pub brief : ltb_ℤ (plus iat (udp_sig_validity + udp_sig_clock_slack)) exp ≡ false
    pub current : is_past exp now ≡ false
    pub issued : ltb_ℤ (pos (now + udp_sig_clock_slack * 1000)) (thousand iat) ≡ false
    pub signed :
        crypto.verify p.cert
          (udp_friend_sig_blob printer kind p.id crypto.host_id p.nonce iat exp)
          p.sig
        ≡ true

  pub verify_cases :
      (now : ℕ) (saves : Bool) (kind : String) (p : Packet) (s : Seen) (P : String × Seen → Type 0)
      → P ("", s)
      → ((iat exp : ℤ)
          → IsGenuine now kind p iat exp
          → P (honoured p.id (udp_seen_check printer now saves p.id p.nonce exp s)))
      → P (verify_udp_friend_packet now saves kind p s)
  unfolding verify_udp_friend_packet is_outside
  verify_cases now saves kind p s P dropped taken =
      elim (Bool-cases (str_eq p.id "" || str_eq p.id crypto.host_id)) [
        | inl a ↦ rw (verify_udp_friend_packet, a) dropped
        | inr a ↦ elim (Bool-cases (str_eq (crypto.fingerprint p.cert) p.id)) [
          | inr b ↦ rw (verify_udp_friend_packet, a, b) dropped
          | inl b ↦ elim (Bool-cases (str_eq p.to crypto.host_id)) [
            | inr c ↦ rw (verify_udp_friend_packet, a, b, c) dropped
            | inl c ↦ elim (Option-cases p.iat) [
              | inl d ↦ rw (verify_udp_friend_packet, a, b, c, d) dropped
              | inr (iat, d) ↦ elim (Option-cases p.exp) [
                | inl e ↦ rw (verify_udp_friend_packet, a, b, c, d, e) dropped
                | inr (exp, e) ↦ elim (Bool-cases (is_outside iat exp now)) [
                  | inl f ↦ rw (verify_udp_friend_packet, a, b, c, d, e, f) dropped
                  | inr f ↦
                      elim (Bool-cases (
                        str_eq p.nonce ""
                        || not (
                            crypto.verify p.cert
                              (udp_friend_sig_blob printer kind p.id crypto.host_id p.nonce iat exp)
                              p.sig))) [
                                | inl g ↦ rw (verify_udp_friend_packet, a, b, c, d, e, f, g) dropped
                                | inr g ↦
                                    rw (verify_udp_friend_packet, a, b, c, d, e, f, g)
                                      (taken iat exp (record {
                                        instants = (d, e);
                                        named = ground (arith, a);
                                        foreign = ground (arith, a);
                                        own_cert = (eq_iff (crypto.fingerprint p.cert) p.id).0 b;
                                        addressed = (eq_iff p.to crypto.host_id).0 c;
                                        ordered = ground (arith, f);
                                        brief = ground (arith, f);
                                        current = ground (arith, f);
                                        issued = ground (arith, f);
                                        signed = ground (arith, g);
                                      }))
                              ]
                ]
              ]
            ]
          ]
        ]
      ]

  -- A packet that gives an id gives the id of its own certificate, which is not this host's; the packet
  -- is addressed to this host, is within its signed window and carries a signature of exactly this
  -- operation.
  pub verify_udp_friend_packet-IsGenuine :
      (now : ℕ) (saves : Bool) (kind : String) (p : Packet) (s : Seen)
      → (verify_udp_friend_packet now saves kind p s).0 ≢ ""
      → ((verify_udp_friend_packet now saves kind p s).0 ≡ p.id)
        × ((iat : ℤ) × (exp : ℤ) × IsGenuine now kind p iat exp)
  verify_udp_friend_packet-IsGenuine now saves kind p s =
      verify_cases now saves kind p s
        (λ o. o.0 ≢ "" → (o.0 ≡ p.id) × ((iat : ℤ) × (exp : ℤ) × IsGenuine now kind p iat exp))
        (λ n. absurd (n refl))
        λ iat exp g n.
          (named (udp_seen_check printer now saves p.id p.nonce exp s) n, (iat, exp, g))
    where
      named : (o : Bool × Seen) → (honoured p.id o).0 ≢ "" → (honoured p.id o).0 ≡ p.id
      named (true, s1) n = refl
      named (false, s1) n = absurd (n refl)
