-- ===== src/Serving/Window.antt =====
-- How long an offered file can be asked for.
use native.Mathlib.Nat.{add-mul-div_left}
use lan_chat.Base.{
  ℕ, ◌+◌, ◌-◌, ◌*◌, ◌/◌, ◌≤◌, ◌<◌, String, ◌≡◌, ◌≢◌, ◌↔◌, refl, sym, ◌∙◌, ap, inl, inr, true, false,
  none, some, ltb, arith, lt→ltb, ltb→lt, if◌then◌else◌, Bool-cases,
}
use lan_chat.Dict.{Dict, lookup-insert_self, lookup-insert_ne}
use lan_chat.Download.Types.{att_chunk_raw}
use lan_chat.Serving.Register.{
  Offer, att_ttl_base, att_ttl_max, ttl_scale, registration_ttl, register_attachment,
  get_attachment,
}

five-le-div : (n y : ℕ) → 0 < y → y * 5 ≤ n → 5 ≤ n / y
five-le-div n y h k =
    let split : n - y * 5 + y * 5 ≡ n = omega arith in
    let e : n / y ≡ (n - y * 5) / y + 5 =
      ap (λ m. m / y) (sym split) ∙ add-mul-div_left (n - y * 5) 5 h in
    omega (arith, e)

-- A file as large as the per-file ceiling is offered for the whole hour exactly if the ceiling is above
-- 2 GiB.
pub registration_ttl-at_ceiling :
    (att_max_bytes : ℕ)
    → (registration_ttl att_max_bytes att_max_bytes ≡ att_ttl_max) ↔ (2147483648 < att_max_bytes)
unfolding registration_ttl
registration_ttl-at_ceiling n = (small, large)
  where
    scale_of : n ≤ 2684354560 → ttl_scale n ≡ 536870912
    scale_of h = omega arith

    short : n ≤ 2147483648 → registration_ttl n n ≤ 3000000
    short h =
        let scale = scale_of (omega arith) in
        elim (Bool-cases (ltb att_chunk_raw n)) [
          | inl e ↦ rw (registration_ttl, e, scale) (omega arith)
          | inr e ↦ rw (registration_ttl, e) (omega arith)
        ]

    small : registration_ttl n n ≡ att_ttl_max → 2147483648 < n
    small h = elim (Bool-cases (ltb 2147483648 n)) [
      | inl over ↦ ltb→lt 2147483648 n over
      | inr under ↦ absurd (omega (arith, h, short (ground (arith, under))))
    ]

    large : 2147483648 < n → registration_ttl n n ≡ att_ttl_max
    large h =
        let s = ttl_scale n in
        let five = five-le-div (n + s - 1) s (omega arith) (omega arith) in
        let chunked : ltb att_chunk_raw n ≡ true = lt→ltb att_chunk_raw n (omega arith) in
        rw (registration_ttl, chunked) (omega (arith, five))

-- Every window is between ten minutes and an hour.
registration_ttl-range :
    (att_max_bytes size : ℕ)
    → (att_ttl_base ≤ registration_ttl att_max_bytes size)
      × (registration_ttl att_max_bytes size ≤ att_ttl_max)
unfolding registration_ttl
registration_ttl-range m size =
    let steps = if ltb att_chunk_raw size then (size + ttl_scale m - 1) / ttl_scale m else 0 in
    (omega arith, omega arith)

-- A readable file that is registered without a window of its own is found for ten minutes at least, and
-- never after an hour; the offers of other files stay as they are. An unreadable file changes nothing.
pub get_attachment-register_attachment :
    (att_max_bytes now later size : ℕ) (file_id path name : String) (d : Dict Offer)
    → (later < now + 600000
        → get_attachment later file_id
            (register_attachment att_max_bytes now (some size) file_id path name 0 d).1
          ≡ some (record {
            path = path;
            name = name;
            expires = now + registration_ttl att_max_bytes size;
          }))
      × (now + 3600000 ≤ later
          → get_attachment later file_id
              (register_attachment att_max_bytes now (some size) file_id path name 0 d).1
            ≡ none)
      × ((j : String)
          → file_id ≢ j
          → get_attachment later j
              (register_attachment att_max_bytes now (some size) file_id path name 0 d).1
            ≡ get_attachment later j d)
      × (register_attachment att_max_bytes now none file_id path name 0 d ≡ (false, d))
unfolding register_attachment get_attachment
get_attachment-register_attachment m now later size file_id path name d =
    let range = registration_ttl-range m size in
    let w = registration_ttl m size in
    let offer : Offer = record { path = path; name = name; expires = now + w } in
    (
      λ h.
          let open_ : ltb later (now + w) ≡ true =
            lt→ltb later (now + w) (omega (arith, range.0)) in
          rw (register_attachment, get_attachment, lookup-insert_self file_id offer d, open_),
      λ h.
          let over : ltb later (now + w) ≡ false = ground (arith, range.1) in
          rw (register_attachment, get_attachment, lookup-insert_self file_id offer d, over),
      λ j n. rw (register_attachment, get_attachment, lookup-insert_ne file_id j offer d n),
      refl,
    )
