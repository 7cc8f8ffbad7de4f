-- ===== src/Friends/Moves.antt =====
-- How a call may change whom the daemon holds for a friend, whom its ledger has, and whom it asked.
use lan_chat.Base.{
  String, ◌≡◌, ◌⊎◌, ℕ, ◌||◌, refl, ◌∙◌, ap, inl, inr, Bool, true, false, arith, str_eq,
  if◌then◌else◌, if_cases, Bool-cases,
}
use lan_chat.Dict.{Dict, erase, has, has-insert, has-erase}
use lan_chat.Friends.Types.{Daemon, World, Env, is_in}
use lan_chat.Friends.Ledger.{
  is_friend, is_pending, recorded, add_friend, unfriend, do_unfriend, unfriend_if_unconfirmed,
  first_is_pending,
}
use lan_chat.Friends.Peers.{upsert_peer, sync_friend_name, needs_name}
use lan_chat.Friends.Lists.{
  is_friend_in-put_friend, is_friend_in-put_friend_pending, is_friend_in-keep,
  is_friend_in-named_friend, is_listed-cases, is_in-discard,
}

-- The friends and the ledger change alike, by a rule for each id.
abbrev pub Alike : (String → Bool → Bool) → Daemon → Daemon → Type 0
Alike f s s' =
    (k : String) → (is_friend k s' ≡ f k (is_friend k s)) × (has k s'.ledger ≡ f k (has k s.ledger))

abbrev pub kept : String → Bool → Bool
kept k b = b

abbrev pub gains : String → String → Bool → Bool
gains pid k b = if str_eq pid k then true else b

abbrev pub loses : String → String → Bool → Bool
loses pid k b = if str_eq pid k then false else b

-- No request is outstanding but the old ones and those that are asked for.
abbrev pub Outgoing : (String → Type 0) → Daemon → Daemon → Type 0
Outgoing Asks s s' =
    (k : String) → is_in k s'.request_outgoing ≡ true → (is_in k s.request_outgoing ≡ true) ⊎ Asks k

pub data Move (May Asks : String → Type 0) (s s' : Daemon) : Type 0 where
  still : Alike kept s s' → Outgoing Asks s s' → Move May Asks s s'
  befriend :
      (pid : String) → May pid → Alike (gains pid) s s' → Outgoing Asks s s' → Move May Asks s s'
  part : (pid : String) → Alike (loses pid) s s' → Outgoing Asks s s' → Move May Asks s s'

pub Alike-trans :
    (f : String → Bool → Bool) (s x s' : Daemon) → Alike kept s x → Alike f x s' → Alike f s s'
Alike-trans f s x s' a b k = ((b k).0 ∙ ap (f k) (a k).0, (b k).1 ∙ ap (f k) (a k).1)

pub Alike-then :
    (f : String → Bool → Bool) (s x s' : Daemon) → Alike f s x → Alike kept x s' → Alike f s s'
Alike-then f s x s' a b k = ((b k).0 ∙ (a k).0, (b k).1 ∙ (a k).1)

-- A move after a call that keeps friends and ledger.
pub Move-after :
    {May Asks : String → Type 0} (s x s' : Daemon)
    → Alike kept s x
    → Outgoing Asks s x
    → Move May Asks x s'
    → Move May Asks s s'
Move-after {May} {Asks} s x s' a o m = elim m [
  | still b p ↦ still (Alike-trans kept s x s' a b) (out p)
  | befriend pid may b p ↦ befriend pid may (Alike-trans (gains pid) s x s' a b) (out p)
  | part pid b p ↦ part pid (Alike-trans (loses pid) s x s' a b) (out p)
]
  where
    out : Outgoing Asks x s' → Outgoing Asks s s'
    out p k h = elim (p k h) [ inl i ↦ o k i | inr i ↦ inr i ]

-- A move by cases on a test.
pub Move-if :
    {May Asks : String → Type 0} {s x y : Daemon} (b : Bool)
    → (b ≡ true → Move May Asks s x)
    → (b ≡ false → Move May Asks s y)
    → Move May Asks s (if b then x else y)
Move-if {May} {Asks} {s} b f g = if_cases (Move May Asks s) b f g

has-recorded :
    (pid name k : String) (ledger : Dict String)
    → has k (recorded pid name ledger) ≡ gains pid k (has k ledger)
has-recorded pid name k ledger =
    let a = has-insert pid k name (erase pid ledger) in
    let b = has-erase pid k ledger in ground (arith, a, b)

module _ (env : Env) (s : Daemon) where
  pub add_friend-gains :
      (pid address name : String) → Alike (gains pid) s (add_friend env pid address name true s)
  unfolding add_friend
  add_friend-gains pid address name k = (
    is_friend_in-put_friend k
        (record { id = pid; address = address; name = name; confirmed = true }) s.friends refl,
    has-recorded pid name k s.ledger,
  )

  pub add_friend-kept :
      (pid address name : String)
      → is_friend pid s ≡ false
      → is_pending pid s ≡ false
      → Alike kept s (add_friend env pid address name false s)
  unfolding add_friend
  add_friend-kept pid address name a b k = (
    is_friend_in-put_friend_pending k
        (record { id = pid; address = address; name = name; confirmed = false }) s.friends refl
        (is_listed-cases pid s.friends a b),
    refl,
  )

  pub unfriend-loses : (pid : String) → Alike (loses pid) s (unfriend env pid s)
  unfolding unfriend
  unfriend-loses pid k = (is_friend_in-keep k pid s.friends, has-erase pid k s.ledger)

  pub unfriend-Outgoing :
      (Asks : String → Type 0) (pid : String) → Outgoing Asks s (unfriend env pid s)
  unfolding unfriend
  unfriend-Outgoing Asks pid k h = inl (is_in-discard k pid s.request_outgoing h)

  pub do_unfriend-Move :
      {May Asks : String → Type 0} (w : World) (pid : String)
      → Move May Asks s (do_unfriend w env pid s)
  unfolding do_unfriend
  do_unfriend-Move w pid = part pid (unfriend-loses pid) (unfriend-Outgoing _ pid)

  pub unfriend-Move :
      {May Asks : String → Type 0} (pid : String) → Move May Asks s (unfriend env pid s)
  unfriend-Move pid = part pid (unfriend-loses pid) (unfriend-Outgoing _ pid)

  pub unfriend_if_unconfirmed-Move :
      {May Asks : String → Type 0} (pid : String)
      → Move May Asks s (unfriend_if_unconfirmed env pid s)
  unfolding unfriend_if_unconfirmed
  unfriend_if_unconfirmed-Move pid =
      Move-if (first_is_pending pid s.friends) (λ e. unfriend-Move pid)
        (λ e. still (λ k. (refl, refl)) (λ k h. inl h))

-- What is known of a call that leaves the friends and the requests as they are.
pub record Same (s s' : Daemon) : Type 0 where
  pub alike : Alike kept s s'
  pub outgoing : s'.request_outgoing ≡ s.request_outgoing

pub upsert_peer-Same :
    (env : Env) (pid name address : String) (port : ℕ) (s : Daemon)
    → Same s (upsert_peer env pid name address port s)
unfolding upsert_peer sync_friend_name
upsert_peer-Same env pid name address port s =
    elim (Bool-cases (str_eq name "" || str_eq name "Unknown")) [
      | inl e ↦ rw (upsert_peer, e) (record { alike = λ k. (refl, refl); outgoing = refl })
      | inr e ↦ elim (Bool-cases (needs_name pid s.friends)) [
        | inl n ↦
            rw (upsert_peer, e, sync_friend_name, n)
              (record {
                alike = λ k. (is_friend_in-named_friend k pid name s.friends, refl);
                outgoing = refl;
              })
        | inr n ↦
            rw (upsert_peer, e, sync_friend_name, n)
              (record { alike = λ k. (refl, refl); outgoing = refl })
      ]
    ]
