-- ===== src/Vlq/Laws.antt =====
-- The loops of src/vlq.rs, and writing and reading at different widths.
use alkahest.Prelude.{
  ℕ, zero, suc, ◌+◌, ◌-◌, ◌*◌, ◌/◌, ◌%◌, ◌^◌, ◌≤◌, ◌<◌, ◌≡◌, refl, sym, ap, ◌∙◌, true, false,
  Option, none, some, ltb, le→leb, lt→leb_false, lt→ltb, le→ltb_false, ltb-cases, if◌then◌else◌,
  ◌++◌, [], ◌∷◌, ◌⊎◌, inl, inr, length, length-append, append_assoc, arith,
}
use alkahest.Prelude.Words.{Bytes}
use alkahest.Outcome.{ok, err}
use alkahest.Sizes.{Sizes, with_stack}
use alkahest.Buffer.{Buffer}
use alkahest.Serialize.{write_bytes}
use alkahest.Deserialize.{Read, integer_overflow}
use alkahest.Deserialize.Reads.{at_end, read_bytes-at_end}
use alkahest.Vlq.{
  shl_byte_set, push_byte, fits_header, hint_loop, size_hint, header_byte, vlq_bytes, serialize,
  read_header, shl_bytes, deserialize, no_overflow,
}
use native.Mathlib.Nat.{pow-suc}

-- A value that a width holds, and no other.
abbrev held : ℕ → ℕ → Option ℕ
held width v = if ltb v (256 ^ width) then some v else none

-- What the loops return: bytes and a header that tells their number, and the value from them.
abbrev Encoded : ℕ → ℕ → ℕ → Type 0
Encoded left tail v =
    (low : Bytes) × (header : ℕ) × (msb : ℕ) × (vlq_bytes left tail v ≡ ok (low ++ (header ∷ [])))
    × (hint_loop left tail v ≡ ok (tail + length low + 1))
    × (read_header header ≡ ok (tail + length low, msb))
    × ((w : ℕ) → shl_bytes (suc w) low msb ≡ held (suc w) v)

fits_header-cases :
    (tail v : ℕ)
    → ((fits_header tail v ≡ true) × (((8 ≤ tail) × (v ≡ 0)) ⊎ ((tail < 8) × (v ≤ 15))))
      ⊎ ((fits_header tail v ≡ false) × (0 < v))
unfolding fits_header
fits_header-cases tail v = ground arith

pow_pos : (w : ℕ) → 0 < 256 ^ w
pow_pos zero = omega arith
pow_pos (suc w) = omega (arith, pow-suc 256 w, pow_pos w)

small_held : (w v : ℕ) → v ≤ 15 → held (suc w) v ≡ some v
small_held w v h = rw (lt→ltb v (256 ^ suc w) (omega (arith, pow-suc 256 w, pow_pos w)))

header_lem :
    (tail v : ℕ)
    → tail ≤ 63
    → ((8 ≤ tail) × (v ≡ 0)) ⊎ ((tail < 8) × (v ≤ 15))
    → read_header (header_byte tail v) ≡ ok (tail + 0, v)
unfolding read_header header_byte
header_lem tail v h (inl (le, z)) =
    rw
      (
        le→leb 8 tail le,
        le→ltb_false (128 + tail) 128 (omega arith),
        lt→ltb (128 + tail) 192 (omega arith),
        z,
      )
      (ap (λ n. ok (n, 0)) (omega arith))
header_lem tail v h (inr (lt, le)) =
    let high : (tail * 16 + v % 256) / 16 ≡ tail + 0 = omega arith in
    let low : (tail * 16 + v % 256) % 16 ≡ v = omega arith in
    rw (lt→leb_false 8 tail lt, lt→ltb (tail * 16 + v % 256) 128 (omega arith), high, low)

-- Shifting the last byte in.
push_held : (w v : ℕ) → push_byte (suc w) (v % 256) (held (suc w) (v / 256)) ≡ held (suc w) v
unfolding push_byte shl_byte_set
push_held w v =
    let p : 256 ^ suc w ≡ 256 ^ w * 256 = omega (arith, pow-suc 256 w) in
    let one_less : suc w - 1 ≡ w = omega arith in
    elim (ltb-cases v (256 ^ suc w)) [
      | inl (t, lt) ↦
          let back : v / 256 * 256 + v % 256 ≡ v = omega arith in
          rw (
            t,
            lt→ltb (v / 256) (256 ^ suc w) (omega arith),
            one_less,
            lt→leb_false (256 ^ w) (v / 256) (omega arith),
            back,
          )
      | inr (t, le) ↦ elim (ltb-cases (v / 256) (256 ^ suc w)) [
        | inl (t', lt') ↦ rw (t, t', one_less, le→leb (256 ^ w) (v / 256) (omega arith))
        | inr (t', le') ↦ rw (t, t')
      ]
    ]

-- The loops end before the tail is too long.
encode : (left tail v : ℕ) → tail + left ≤ 63 → v < 256 ^ left → Encoded left tail v
unfolding vlq_bytes hint_loop shl_bytes
encode zero tail v h hv = elim (fits_header-cases tail v) [
  | inl (t, fits) ↦ (
    [],
    header_byte tail v,
    v,
    rw t,
    rw t (ap ok (omega arith)),
    header_lem tail v (omega arith) fits,
    λ w. sym (small_held w v (omega arith)),
  )
  | inr (t, pos) ↦ absurd (omega arith)
]
encode (suc left) tail v h hv = elim (fits_header-cases tail v) [
  | inl (t, fits) ↦ (
    [],
    header_byte tail v,
    v,
    rw t,
    rw t (ap ok (omega arith)),
    header_lem tail v (omega arith) fits,
    λ w. sym (small_held w v (low_bits fits)),
  )
  | inr (t, pos) ↦
      let (low, header, msb, eb, eh, er, es) =
        encode left (tail + 1) (v / 256) (omega arith) (omega (arith, pow-suc 256 left)) in
      (
        (v % 256) ∷ low,
        header,
        msb,
        rw (t, eb),
        rw t (eh ∙ ap ok (omega arith)),
        er ∙ ap (λ n. ok (n, msb)) (omega arith),
        λ w. ap (push_byte (suc w) (v % 256)) (es w) ∙ push_held w v,
      )
]
  where
    low_bits : ((8 ≤ tail) × (v ≡ 0)) ⊎ ((tail < 8) × (v ≤ 15)) → v ≤ 15
    low_bits (inl (le, z)) = omega arith
    low_bits (inr (lt, le)) = le

-- What is read at a width: the number, or an overflow.
abbrev pub at_width : ℕ → ℕ → Read ℕ
at_width width v = if ltb v (256 ^ width) then ok v else err integer_overflow

-- Every number below 256 ^ 63 is written by `Vlq` in as many bytes as `size_hint` says; and those
-- bytes are read back, at every width of at least one byte, as the number if the width holds it
-- and as `IntegerOverflow` if it does not.
pub serialize-deserialize :
    (v : ℕ)
    → v < 256 ^ 63
    → (bytes : Bytes) × (size_hint v ≡ ok (with_stack (length bytes)))
      × ((z : Sizes) (b : Buffer) → serialize v z b ≡ write_bytes bytes z b)
      × ((w k : ℕ) (pre : Bytes) → deserialize (suc w) (at_end pre bytes k) ≡ at_width (suc w) v)
unfolding serialize size_hint deserialize
serialize-deserialize v h =
    let (low, header, msb, eb, eh, er, es) = encode 63 0 v (omega arith) h in
    let bytes : Bytes = low ++ (header ∷ []) in
    (
      bytes,
      rw eh (ap (λ n. ok (with_stack n)) (omega (arith, length-append low (header ∷ [])))),
      λ z b. rw eb,
      λ w k pre.
          let regroup : at_end pre bytes k ≡ at_end (pre ++ low) (header ∷ []) (k + length low) =
            rw (← append_assoc pre low (header ∷ [])) (
              ap (λ n. record { input = (pre ++ low) ++ (header ∷ []); stack = n })
                (omega (arith, length-append low (header ∷ [])))) in
          ap (deserialize (suc w)) regroup
          ∙ rw
              (
                read_bytes-at_end (pre ++ low) (header ∷ []) (k + length low) 1 refl,
                er,
                read_bytes-at_end pre low k (0 + length low) (omega arith),
                es w,
              )
              (outcome (suc w)),
    )
  where
    outcome : (width : ℕ) → no_overflow (held width v) ≡ at_width width v
    outcome width = ground arith
