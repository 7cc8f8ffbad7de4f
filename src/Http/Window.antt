-- ===== src/Http/Window.antt =====
-- What a throttle admits: in no window of time are there more calls than its limit.
use lan_chat.Base.{
  ℕ, ◌+◌, ◌≤◌, ◌<◌, ◌≡◌, refl, sym, ◌∙◌, ap, ◌&&◌, Bool, true, false, List, [], ◌∷◌, ◌++◌, arith,
  ltb, leb, length, keep, length-append, Bool-cases, inl, inr, if◌then◌else◌,
}
use lan_chat.Http.Throttle.{recent, throttle}

module _ {ℓ} {A : Type ℓ} where
  pub keep-append :
      (test : A → Bool) (xs ys : List A) → keep test (xs ++ ys) ≡ keep test xs ++ keep test ys
  keep-append test [] ys = refl
  keep-append test (x ∷ xs) ys = elim (Bool-cases (test x)) [
    | inl e ↦ rw (e, keep-append test xs ys) refl
    | inr e ↦ rw (e, keep-append test xs ys) refl
  ]

  -- A weaker test keeps no fewer items.
  pub keep_mono :
      (strong weak : A → Bool)
      → ((x : A) → strong x ≡ true → weak x ≡ true)
      → (xs : List A) → length (keep strong xs) ≤ length (keep weak xs)
  keep_mono strong weak h [] = omega arith
  keep_mono strong weak h (x ∷ xs) = ground (arith, h x, keep_mono strong weak h xs)

  -- A weaker test before changes nothing.
  pub keep-keep :
      (strong weak : A → Bool)
      → ((x : A) → strong x ≡ true → weak x ≡ true)
      → (xs : List A) → keep strong (keep weak xs) ≡ keep strong xs
  keep-keep strong weak h [] = refl
  keep-keep strong weak h (x ∷ xs) = elim (Bool-cases (strong x)) [
    | inl e ↦ rw (e, h x e) (rw e (ap (◌∷◌ x) (keep-keep strong weak h xs)))
    | inr e ↦ elim (Bool-cases (weak x)) [
      | inl e' ↦ rw (e, e') (rw e (keep-keep strong weak h xs))
      | inr e' ↦ rw (e, e') (keep-keep strong weak h xs)
    ]
  ]

-- The times that stand in the window that starts at `x`.
abbrev pub within : ℕ → ℕ → List ℕ → List ℕ
within window x ts = keep (λ t. leb x t && ltb t (x + window)) ts

pub throttle_full :
    (limit window now : ℕ) (b : List ℕ)
    → leb limit (length (recent window now b)) ≡ true
    → throttle limit window now b ≡ (false, recent window now b)
unfolding throttle
throttle_full limit window now b e = rw e refl

pub throttle_free :
    (limit window now : ℕ) (b : List ℕ)
    → leb limit (length (recent window now b)) ≡ false
    → throttle limit window now b ≡ (true, recent window now b ++ now ∷ [])
unfolding throttle
throttle_free limit window now b e = rw e refl

-- A bucket after the calls that were admitted so far, the last change at `last`.
pub record Fits (limit window last : ℕ) (admitted bucket : List ℕ) : Type 0 where
  pub bound : (x : ℕ) → length (within window x admitted) ≤ limit
  pub current : recent window last bucket ≡ recent window last admitted

-- What a call at `now` does to a bucket; it is admitted or not.
pub data Step (limit window now : ℕ) : Bool → List ℕ → List ℕ → Type 0 where
  stays : {b b' : List ℕ} → b ≡ b' → Step limit window now false b b'
  prunes : {b b' : List ℕ} → recent window now b ≡ b' → Step limit window now false b b'
  takes :
      {b b' : List ℕ}
      → length (recent window now b) < limit
      → recent window now b ++ now ∷ [] ≡ b'
      → Step limit window now true b b'

module _ (window : ℕ) where
  -- What was recent later was recent before.
  pub recent-recent :
      (last now : ℕ)
      → last ≤ now
      → (ts : List ℕ) → recent window now (recent window last ts) ≡ recent window now ts
  unfolding recent
  recent-recent last now h =
      keep-keep (λ t. ltb now (t + window)) (λ t. ltb last (t + window))
        (λ t e. ground (arith, e, h))

  recent-append :
      (now : ℕ) (xs ys : List ℕ)
      → recent window now (xs ++ ys) ≡ recent window now xs ++ recent window now ys
  unfolding recent
  recent-append now = keep-append (λ t. ltb now (t + window))

  recent_now : (now : ℕ) → 0 < window → recent window now (now ∷ []) ≡ now ∷ []
  unfolding recent
  recent_now now h = ground (arith, h)

  -- A bucket that is right for an instant is right for later ones.
  later :
      (last now : ℕ) (bucket admitted : List ℕ)
      → last ≤ now
      → recent window last bucket ≡ recent window last admitted
      → recent window now bucket ≡ recent window now admitted
  later last now bucket admitted h e =
      sym (recent-recent last now h bucket)
      ∙ ap (recent window now) e
      ∙ recent-recent last now h admitted

  within-recent :
      (x now : ℕ) (ts : List ℕ)
      → now < x + window
      → length (within window x ts) ≤ length (recent window now ts)
  unfolding recent
  within-recent x now ts h =
      keep_mono (λ t. leb x t && ltb t (x + window)) (λ t. ltb now (t + window))
        (λ t e. ground (arith, e, h)) ts

-- The times of the admitted calls.
abbrev pub noted_time : Bool → ℕ → List ℕ → List ℕ
noted_time b now ts = if b then ts ++ now ∷ [] else ts

pub Fits-step :
    (limit window last now : ℕ) (b : Bool) {admitted bucket bucket' : List ℕ}
    → 0 < window
    → last ≤ now
    → Step limit window now b bucket bucket'
    → Fits limit window last admitted bucket
    → Fits limit window now (noted_time b now admitted) bucket'
Fits-step limit window last now b {admitted} {bucket} h le (stays e) f = record {
  bound = f.bound;
  current = rw (← e) (later window last now bucket admitted le f.current);
}
Fits-step limit window last now b {admitted} {bucket} h le (prunes e) f = record {
  bound = f.bound;
  current = rw (← e) (
      recent-recent window now now (omega arith) bucket
      ∙ later window last now bucket admitted le f.current);
}
Fits-step limit window last now b {admitted} {bucket} h le (takes few e) f = record {
  bound = bounded;
  current = rw (← e) (
      recent-append window now (recent window now bucket) (now ∷ [])
      ∙ ap (λ xs. xs ++ recent window now (now ∷ []))
          (recent-recent window now now (omega arith) bucket ∙ same)
      ∙ sym (recent-append window now admitted (now ∷ [])));
}
  where
    same : recent window now bucket ≡ recent window now admitted
    same = later window last now bucket admitted le f.current

    bounded : (x : ℕ) → length (within window x (admitted ++ now ∷ [])) ≤ limit
    bounded x = elim (Bool-cases (leb x now && ltb now (x + window))) [
      | inl t ↦
          let near : now < x + window = ground (arith, t) in
          let room : length (recent window now admitted) < limit = rw (← same) few in
          let fits : length (within window x admitted) < limit =
            omega (arith, within-recent window x now admitted near, room) in
          rw
            (
              keep-append (λ u. leb x u && ltb u (x + window)) admitted (now ∷ []),
              t,
              length-append (within window x admitted) (now ∷ []),
            )
            (omega (arith, fits))
      | inr t ↦
          rw
            (
              keep-append (λ u. leb x u && ltb u (x + window)) admitted (now ∷ []),
              t,
              length-append (within window x admitted) [],
            )
            (omega (arith, f.bound x))
    ]
