-- ===== src/Udp/Blob.antt =====
-- `_udp_friend_sig_blob` and `_udp_seen_key`: texts with a length before each field.
use Prim.Native.String.{count, [] as nil, ◌∷◌ as ◌∷ₛ◌, ◌++◌ as ◌⧺◌}
use text.Mathlib.TextLemmas.{
  nil-append, cons-append, append_inj, head-eq_of_cons-eq, tail-eq_of_cons-eq,
}
use lan_chat.Base.{ℕ, String, ◌≡◌, ◌≢◌, refl, sym, ap, ◌∙◌}
use lan_chat.Base.Int.{ℤ}

-- How Python prints integers.
pub record Printer : Type 0 where
  pub nat : ℕ → String
  pub int : ℤ → String

abbrev pub HasNoColon : String → Type 0
HasNoColon nil = Unit {0}
HasNoColon (c ∷ₛ s) = (c ≢ ":") × HasNoColon s

-- Different integers print differently, and no digit is a colon.
pub record IsDecimal (printer : Printer) : Type 0 where
  pub nat_inj : (m n : ℕ) → printer.nat m ≡ printer.nat n → m ≡ n
  pub int_inj : (i j : ℤ) → printer.int i ≡ printer.int j → i ≡ j
  pub nat_no_colon : (n : ℕ) → HasNoColon (printer.nat n)

module _ (printer : Printer) where
  -- "%d:%s" % (len(p), p)
  abbrev pub prefixed : String → String → String
  prefixed p rest = printer.nat (count p) ⧺ (":" ∷ₛ (p ⧺ rest))

  unfoldable pub udp_friend_sig_blob : String → String → String → String → ℤ → ℤ → String
  udp_friend_sig_blob kind sender_id to_id nonce iat exp = prefixed "v3" (
      prefixed kind (
        prefixed sender_id (
          prefixed to_id
            (prefixed nonce (prefixed (printer.int iat) (prefixed (printer.int exp) nil))))))

  unfoldable pub udp_seen_key : String → String → String
  udp_seen_key sender_id nonce = prefixed sender_id nonce

head_of_colon :
    (a b x y : String)
    → HasNoColon a
    → HasNoColon b
    → a ⧺ (":" ∷ₛ x) ≡ b ⧺ (":" ∷ₛ y)
    → (a ≡ b) × (x ≡ y)
head_of_colon nil nil x y h k e =
    (refl, tail-eq_of_cons-eq (sym (nil-append (":" ∷ₛ x)) ∙ e ∙ nil-append (":" ∷ₛ y)))
head_of_colon nil (c ∷ₛ b) x y h k e =
    absurd (
      k.0 (sym (head-eq_of_cons-eq (sym (nil-append (":" ∷ₛ x)) ∙ e ∙ cons-append c b (":" ∷ₛ y)))))
head_of_colon (c ∷ₛ a) nil x y h k e =
    absurd (h.0 (head-eq_of_cons-eq (sym (cons-append c a (":" ∷ₛ x)) ∙ e ∙ nil-append (":" ∷ₛ y))))
head_of_colon (c ∷ₛ a) (d ∷ₛ b) x y h k e =
    let e' = sym (cons-append c a (":" ∷ₛ x)) ∙ e ∙ cons-append d b (":" ∷ₛ y) in
    let rest = head_of_colon a b x y h.1 k.1 (tail-eq_of_cons-eq e') in
    let head = head-eq_of_cons-eq e' in (ap (λ z. z ∷ₛ a) head ∙ ap (λ z. d ∷ₛ z) rest.0, rest.1)

module _ (printer : Printer) (law : IsDecimal printer) where
  prefixed_inj :
      (p q x y : String) → prefixed printer p x ≡ prefixed printer q y → (p ≡ q) × (x ≡ y)
  prefixed_inj p q x y e =
      let split =
        head_of_colon (printer.nat (count p)) (printer.nat (count q)) (p ⧺ x) (q ⧺ y)
          (law.nat_no_colon (count p)) (law.nat_no_colon (count q)) e in
      append_inj split.1 (law.nat_inj (count p) (count q) split.0)

  -- Two signature blobs are the same only for the same type, sender, recipient, nonce and instants;
  -- two replay keys are the same only for the same sender and nonce.
  pub udp_friend_sig_blob_inj :
      (kind kind' sender sender' to to' nonce nonce' : String) (iat iat' exp exp' : ℤ)
      → (udp_friend_sig_blob printer kind sender to nonce iat exp
            ≡ udp_friend_sig_blob printer kind' sender' to' nonce' iat' exp'
          → (kind ≡ kind')
            × (sender ≡ sender')
            × (to ≡ to')
            × (nonce ≡ nonce')
            × (iat ≡ iat')
            × (exp ≡ exp'))
        × (udp_seen_key printer sender nonce ≡ udp_seen_key printer sender' nonce'
            → (sender ≡ sender') × (nonce ≡ nonce'))
  unfolding udp_friend_sig_blob udp_seen_key
  udp_friend_sig_blob_inj kind kind' sender sender' to to' nonce nonce' iat iat' exp exp' = (
    λ e.
        let v = prefixed_inj "v3" "v3" _ _ e in
        let k = prefixed_inj _ _ _ _ v.1 in
        let s = prefixed_inj _ _ _ _ k.1 in
        let t = prefixed_inj _ _ _ _ s.1 in
        let n = prefixed_inj _ _ _ _ t.1 in
        let i = prefixed_inj _ _ _ _ n.1 in
        let x = prefixed_inj _ _ nil nil i.1 in
        (k.0, s.0, t.0, n.0, law.int_inj iat iat' i.0, law.int_inj exp exp' x.0),
    λ e. prefixed_inj sender sender' nonce nonce' e,
  )
