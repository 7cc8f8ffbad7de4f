-- ===== src/History/Paging.antt =====
-- The pages of a thread.
use Prim.Native.Nat.{max, min}
use lan_chat.Base.{
  ℕ, zero, suc, ◌+◌, ◌-◌, ◌≤◌, ◌<◌, ◌≡◌, refl, ap, false, List, [], ◌∷◌, ◌++◌, arith, length, take,
  drop, length-take, length-drop, ◌==◌,
}
use lan_chat.History.Page.{page_of}

module _ {ℓ} {A : Type ℓ} where
  take-append-slice : (b c : ℕ) (xs : List A) → b ≤ c → take b xs ++ drop b (take c xs) ≡ take c xs
  take-append-slice zero c xs h = refl
  take-append-slice (suc b) zero xs h = absurd (omega arith)
  take-append-slice (suc b) (suc c) [] h = refl
  take-append-slice (suc b) (suc c) (x ∷ xs) h = ap (◌∷◌ x) (take-append-slice b c xs (omega arith))

  slice-append-slice :
      (a b c : ℕ) (xs : List A)
      → a ≤ b
      → b ≤ c
      → drop a (take b xs) ++ drop b (take c xs) ≡ drop a (take c xs)
  slice-append-slice zero b c xs h k = take-append-slice b c xs k
  slice-append-slice (suc a) zero c xs h k = absurd (omega arith)
  slice-append-slice (suc a) (suc b) zero xs h k = absurd (omega arith)
  slice-append-slice (suc a) (suc b) (suc c) [] h k = refl
  slice-append-slice (suc a) (suc b) (suc c) (x ∷ xs) h k =
      slice-append-slice a b c xs (omega arith) (omega arith)

  -- Where enough messages are left, a page is a slice of the thread.
  page_of-slice :
      (msgs : List A) (offset limit : ℕ)
      → offset + limit ≤ length msgs
      → page_of msgs offset limit
        ≡ drop (length msgs - offset - limit) (take (length msgs - offset) msgs)
  unfolding page_of
  page_of-slice [] offset limit h =
      let none_left : 0 - offset - limit ≡ 0 = omega arith in
      let none_shown : 0 - offset ≡ 0 = omega arith in rw (none_left, none_shown)
  page_of-slice (x ∷ xs) offset limit h =
      let n = length (x ∷ xs) in
      let end : max (n - offset - limit + limit) (n - offset) ≡ n - offset = omega arith in
      let filled : (n == 0) ≡ false = ground arith in rw (filled, end)

  -- As long as the thread has enough messages, the page of `older` messages before a page of `newer`
  -- ones, put in front of it, is the page of both together: no message is missing and none comes
  -- twice. Each page is as long as was asked.
  pub page_of-append-page_of :
      (msgs : List A) (offset newer older : ℕ)
      → offset + newer + older ≤ length msgs
      → (page_of msgs (offset + newer) older ++ page_of msgs offset newer
          ≡ page_of msgs offset (newer + older))
        × (length (page_of msgs offset newer) ≡ newer)
  page_of-append-page_of msgs offset newer older h =
      let n = length msgs in
      let first = page_of-slice msgs (offset + newer) older h in
      let second = page_of-slice msgs offset newer (omega arith) in
      let both = page_of-slice msgs offset (newer + older) (omega arith) in
      let middle : n - (offset + newer) ≡ n - offset - newer = omega arith in
      let start : n - offset - (newer + older) ≡ n - (offset + newer) - older = omega arith in
      (
        rw (first, second, both, start, middle)
            (slice-append-slice (n - offset - newer - older) (n - offset - newer) (n - offset) msgs
              (omega arith) (omega arith)),
        rw second (
            omega (
              arith,
              length-drop (n - offset - newer) (take (n - offset) msgs),
              length-take (n - offset) msgs,
            )),
      )

  -- The oldest page of a thread whose length the limit does not divide is not cut at the offset: it
  -- has as many messages as the limit or the thread allows, more than the messages that come before
  -- the offset, so it repeats messages of the page before.
  pub length-page_of_clipped :
      (msgs : List A) (offset limit : ℕ)
      → 0 < offset
      → offset ≤ length msgs
      → length msgs < offset + limit
      → (length (page_of msgs offset limit) ≡ min limit (length msgs))
        × (length msgs - offset < length (page_of msgs offset limit))
  unfolding page_of
  length-page_of_clipped [] offset limit h k l = absurd (omega arith)
  length-page_of_clipped (x ∷ xs) offset limit h k l =
      let n = length (x ∷ xs) in
      let start : n - offset - limit ≡ 0 = omega arith in
      let end : max (0 + limit) (n - offset) ≡ limit = omega arith in
      let filled : (n == 0) ≡ false = ground arith in
      rw (filled, start, end)
        (omega (arith, length-take limit (x ∷ xs)), omega (arith, length-take limit (x ∷ xs)))
