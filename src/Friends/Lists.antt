-- ===== src/Friends/Lists.antt =====
-- What the operations on the list of friends and on the set of requests do to each id.
use lan_chat.Base.{
  String, ◌≡◌, refl, true, false, not, List, [], ◌∷◌, ◌++◌, arith, str_eq, eq_iff, if◌then◌else◌,
  keep,
}
use lan_chat.Friends.Types.{Friend, is_in, add_to, discard}
use lan_chat.Friends.Ledger.{is_friend_in, is_pending_in, is_listed, put_friend}
use lan_chat.Friends.Peers.{named_friend}

module _ (k : String) where
  pub is_friend_in-put_friend :
      (new : Friend) (fs : List Friend)
      → new.confirmed ≡ true
      → is_friend_in k (put_friend new fs) ≡ (if str_eq new.id k then true else is_friend_in k fs)
  unfolding is_friend_in put_friend
  is_friend_in-put_friend new [] c = ground (arith, c)
  is_friend_in-put_friend new (f ∷ fs) c = ground (
    arith,
    c,
    is_friend_in-put_friend new fs c,
    eq_iff f.id new.id,
    eq_iff f.id k,
    eq_iff new.id k,
  )

  pub is_friend_in-put_friend_pending :
      (new : Friend) (fs : List Friend)
      → new.confirmed ≡ false
      → is_listed new.id fs ≡ false
      → is_friend_in k (put_friend new fs) ≡ is_friend_in k fs
  unfolding is_friend_in put_friend is_listed
  is_friend_in-put_friend_pending new [] c n = ground (arith, c)
  is_friend_in-put_friend_pending new (f ∷ fs) c n =
      ground (arith, c, n, is_friend_in-put_friend_pending new fs c)

  pub is_friend_in-keep :
      (pid : String) (fs : List Friend)
      → is_friend_in k (keep (λ f. not (str_eq f.id pid)) fs)
        ≡ (if str_eq pid k then false else is_friend_in k fs)
  unfolding is_friend_in
  is_friend_in-keep pid [] = ground arith
  is_friend_in-keep pid (f ∷ fs) =
      ground (arith, is_friend_in-keep pid fs, eq_iff f.id pid, eq_iff f.id k, eq_iff pid k)

  pub is_friend_in-named_friend :
      (pid name : String) (fs : List Friend)
      → is_friend_in k (named_friend pid name fs) ≡ is_friend_in k fs
  unfolding is_friend_in named_friend
  is_friend_in-named_friend pid name [] = refl
  is_friend_in-named_friend pid name (f ∷ fs) =
      ground (arith, is_friend_in-named_friend pid name fs)

  pub is_listed-cases :
      (fs : List Friend)
      → is_friend_in k fs ≡ false
      → is_pending_in k fs ≡ false
      → is_listed k fs ≡ false
  unfolding is_friend_in is_pending_in is_listed
  is_listed-cases [] a b = refl
  is_listed-cases (f ∷ fs) a b = ground (arith, a, b, is_listed-cases fs)

  pub is_friend_in-append :
      (fs gs : List Friend)
      → is_friend_in k (fs ++ gs) ≡ (if is_friend_in k fs then true else is_friend_in k gs)
  unfolding is_friend_in
  is_friend_in-append [] gs = refl
  is_friend_in-append (f ∷ fs) gs = ground (arith, is_friend_in-append fs gs)

  pub is_in-discard :
      (pid : String) (xs : List String) → is_in k (discard pid xs) ≡ true → is_in k xs ≡ true
  unfolding is_in discard
  is_in-discard pid [] h = h
  is_in-discard pid (x ∷ xs) h = ground (arith, h, is_in-discard pid xs)

  pub is_in-discard_self : (xs : List String) → is_in k (discard k xs) ≡ false
  unfolding is_in discard
  is_in-discard_self [] = refl
  is_in-discard_self (x ∷ xs) = ground (arith, is_in-discard_self xs)

  is_in-append :
      (xs ys : List String) → is_in k (xs ++ ys) ≡ (if is_in k xs then true else is_in k ys)
  unfolding is_in
  is_in-append [] ys = refl
  is_in-append (x ∷ xs) ys = ground (arith, is_in-append xs ys)

  pub is_in-add_to :
      (pid : String) (xs : List String)
      → is_in k (add_to pid xs) ≡ (if is_in k xs then true else str_eq pid k)
  unfolding is_in add_to
  is_in-add_to pid xs = ground (arith, is_in-append xs (pid ∷ []), eq_iff pid k)
