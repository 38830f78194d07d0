-- ===== src/Codec/Capacity.antt =====
-- What the entry points of src/serialize.rs return: for a buffer that is long enough, for one that is
-- not, and for a vector.
use alkahest.Prelude.{
  ℕ, ◌+◌, ◌≤◌, ◌<◌, ◌≡◌, refl, sym, ap, subst, ◌∙◌, [], append-nil, length-append, true, false, ◌⊎◌,
  inl, inr, length, arith, if◌then◌else◌,
}
use alkahest.Prelude.Words.{Bytes}
use alkahest.Outcome.{Outcome, ok, err, panic, ◌>>=◌}
use alkahest.Formula.{usize_limit}
use alkahest.Sizes.{sizes_zero}
use alkahest.Buffer.{
  Buffer, Write, buffer_exhausted, dry_buffer, checked_fixed_buffer, slice_buffer,
  maybe_fixed_buffer, vec_buffer, slice_bytes,
}
use alkahest.Buffer.Holds.{
  Frame, frame, dry_frame, checked_frame, slice_frame, maybe_frame, vec_frame, Ensures, Room,
}
use alkahest.Serialize.{
  serialize_into, serialize, serialize_unchecked, serialize_to_vec, serialize_or_size,
  serialized_size, BufferSizeRequired, never, is_exhausted,
}
use alkahest.Serialize.Wire.{WireFormat}
use alkahest.Serialize.Wire.Reference.{Post-ok}
use alkahest.Codec.{Codec, IsCodec}
use alkahest.Codec.RoundTrip.{
  whole_len, Serialized, Decodes, serialize_into-Ensures, Serialized-Decodes, HoldsBytes,
}

-- A checked buffer answers by the length alone.
pub checked-Post :
    {A : Type 0} (cap n : ℕ) {P : A → Type 0} (r : Write A)
    → Room (checked_frame cap) n
    → Ensures (checked_frame cap) n P r
    → ((n ≤ cap) × ((a : A) × (r ≡ ok a) × P a)) ⊎ ((cap < n) × (r ≡ err buffer_exhausted))
checked-Post cap n (ok a) room p = inl ((p.post room).0, (a, refl, (p.post room).1))
checked-Post cap n (err buffer_exhausted) room p = inr (p.post room, refl)
checked-Post cap n panic room p = absurd (p.post room)

-- The frames whose buffers hold what is written to them.
abbrev pub Solid : Frame → Type 0
Solid dry_frame = ⊥
Solid (maybe_frame n) = ⊥
Solid (checked_frame n) = Unit
Solid (slice_frame n) = Unit
Solid vec_frame = Unit

pub Solid-HoldsBytes : (b : Buffer) → Solid (frame b) → HoldsBytes b
Solid-HoldsBytes dry_buffer x = absurd x
Solid-HoldsBytes (checked_fixed_buffer buf) x = tt
Solid-HoldsBytes (slice_buffer buf) x = tt
Solid-HoldsBytes (maybe_fixed_buffer buf e) x = absurd x
Solid-HoldsBytes (vec_buffer buf) x = tt

Serialized-HoldsBytes :
    {T : Type 0} (w : WireFormat T) (v : T) (k : Frame) (r : ℕ × ℕ × Buffer)
    → Solid k
    → Serialized w v k r
    → HoldsBytes r.2
Serialized-HoldsBytes w v k (size, root, b) x (hb, sb, z, q, er, es, h) =
    Solid-HoldsBytes b (subst Solid (sym h.same) x)

-- The last step of the entry points that return bytes.
abbrev with_bytes : Write (ℕ × ℕ × Buffer) → Write (ℕ × ℕ × Bytes)
with_bytes r = r >>= λ (size, root, b). ok (size, root, slice_bytes b)

-- The last step of `serialize_or_size`.
abbrev or_size : Write (ℕ × ℕ × Buffer) → Outcome BufferSizeRequired (ℕ × ℕ × Bytes)
or_size r = never r >>= λ (size, root, b).
    if is_exhausted b then err (record { required = size }) else ok (size, root, slice_bytes b)

slice_maybe : (buf : Bytes) → slice_bytes (maybe_fixed_buffer buf false) ≡ buf
unfolding slice_bytes
slice_maybe buf = refl

same_room : {m n : ℕ} → maybe_frame m ≡ maybe_frame n → m ≡ n
same_room e = cc e

module _ {T : Type 0} (c : Codec T) (w : WireFormat T) (laws : IsCodec c w) (v : T)
    (val : w.IsValue v) where
  by_flag :
      (output : Bytes) (size root : ℕ) (b : Buffer)
      → Serialized w v (maybe_frame (length output)) (size, root, b)
      → ((whole_len w v ≤ length output)
          × ((r : ℕ × ℕ × Bytes) × (or_size (ok (size, root, b)) ≡ ok r) × Decodes c w v r))
        ⊎ ((length output < whole_len w v)
            × (or_size (ok (size, root, b)) ≡ err (record { required = whole_len w v })))
  by_flag output size root (maybe_fixed_buffer buf true) (hb, sb, z, q, er, es, h) =
      let (lh, ls) = w.lengths v 0 hb sb q in
      let room : length buf ≡ length output = same_room h.same in
      let size' : size ≡ whole_len w v = omega (arith, length-append hb sb) in
      inr (omega (arith, h.content), ap (λ n. err (record { required = n })) size')
  by_flag output size root (maybe_fixed_buffer buf false) (hb, sb, z, q, er, es, h) =
      let k : Frame = maybe_frame (length output) in
      let b : Buffer = maybe_fixed_buffer buf false in
      let d : Decodes c w v (size, root, slice_bytes b) =
        Serialized-Decodes c w laws v k size root b val tt (hb, sb, z, q, er, es, h) in
      let room : length buf ≡ length output = same_room h.same in
      let bytes : slice_bytes b ≡ buf = slice_maybe buf in
      inl (omega (arith, d.0, d.2, ap length bytes), ((size, root, slice_bytes b), refl, d))
  by_flag output size root dry_buffer (hb, sb, z, q, er, es, h) = absurd (cc (h.same))
  by_flag output size root (checked_fixed_buffer buf) (hb, sb, z, q, er, es, h) =
      absurd (cc (h.same))
  by_flag output size root (slice_buffer buf) (hb, sb, z, q, er, es, h) = absurd (cc (h.same))
  by_flag output size root (vec_buffer buf) (hb, sb, z, q, er, es, h) = absurd (cc (h.same))

module _ {T : Type 0} (c : Codec T) (w : WireFormat T) (laws : IsCodec c w) (v : T)
    (val : w.IsValue v) (small : whole_len w v < usize_limit) where
  -- `serialize` into a slice that is long enough returns the exact sizes, and the bytes deserialize to
  -- the value; into a shorter one it fails.
  serialize-cases :
      (output : Bytes)
      → ((whole_len w v ≤ length output)
          × ((r : ℕ × ℕ × Bytes) × (serialize c.formula c.ser v output ≡ ok r) × Decodes c w v r))
        ⊎ ((length output < whole_len w v)
            × (serialize c.formula c.ser v output ≡ err buffer_exhausted))
  unfolding serialize
  serialize-cases output =
      let b : Buffer = checked_fixed_buffer output in
      elim (checked-Post (length output) (whole_len w v) (serialize_into c.formula c.ser v b)
        (record { within = tt; small = small })
        (serialize_into-Ensures c w laws v b val (output, sym (append-nil output)))) [
          | inl (fits, ((size, root, b'), e, p)) ↦ inl (
            fits,
            (
              (size, root, slice_bytes b'),
              ap with_bytes e,
              Serialized-Decodes c w laws v (checked_frame (length output)) size root b' val
                  (Serialized-HoldsBytes w v (checked_frame (length output)) (size, root, b') tt p)
                  p,
            ),
          )
          | inr (short, e) ↦ inr (short, ap with_bytes e)
        ]

  -- For a codec that keeps the contract `IsCodec` and a value of its type that takes fewer
  -- bytes than a `FixedUsizeType` can count: `serialize` into a slice that is at least that
  -- long returns the sizes of the image and of its root, the image lying within the slice, and
  -- `deserialize_with_size` reads the value back from the first bytes of the slice.
  pub serialize-fits :
      (output : Bytes)
      → whole_len w v ≤ length output
      → (r : ℕ × ℕ × Bytes) × (serialize c.formula c.ser v output ≡ ok r) × Decodes c w v r
  serialize-fits output h = elim (serialize-cases output) [
    | inl (fits, r) ↦ r
    | inr (short, e) ↦ absurd (omega arith)
  ]

  -- For a codec that keeps the contract `IsCodec` and a value of its type that takes fewer
  -- bytes than a `FixedUsizeType` can count: `serialize` into a shorter slice returns
  -- `BufferExhausted`.
  pub serialize-exhausted :
      (output : Bytes)
      → length output < whole_len w v
      → serialize c.formula c.ser v output ≡ err buffer_exhausted
  serialize-exhausted output h = elim (serialize-cases output) [
    | inl (fits, r) ↦ absurd (omega arith)
    | inr (short, e) ↦ e
  ]

  -- For a codec that keeps the contract `IsCodec` and a value of its type that takes fewer
  -- bytes than a `FixedUsizeType` can count: `serialize_to_vec` succeeds into every vector, and
  -- the value is read back from it.
  pub serialize_to_vec-ok :
      (output : Bytes)
      → (r : ℕ × ℕ × Bytes) × (serialize_to_vec c.formula c.ser v output ≡ ok r) × Decodes c w v r
  unfolding serialize_to_vec
  serialize_to_vec-ok output =
      let b : Buffer = vec_buffer output in
      let ((size, root, b'), e, p) =
        Post-ok vec_frame (serialize_into c.formula c.ser v b) tt
          (record { within = tt; small = small })
          (serialize_into-Ensures c w laws v b val (output, sym (append-nil output))) in
      (
        (size, root, slice_bytes b'),
        ap with_bytes e,
        Serialized-Decodes c w laws v vec_frame size root b' val
            (Serialized-HoldsBytes w v vec_frame (size, root, b') tt p) p,
      )

  -- For a codec that keeps the contract `IsCodec` and a value of its type that takes fewer
  -- bytes than a `FixedUsizeType` can count: `serialize_unchecked` into a slice that is at
  -- least that long does not panic, and the value is read back.
  pub serialize_unchecked-ok :
      (output : Bytes)
      → whole_len w v ≤ length output
      → (r : ℕ × ℕ × Bytes) × (serialize_unchecked c.formula c.ser v output ≡ ok r)
        × Decodes c w v r
  unfolding serialize_unchecked
  serialize_unchecked-ok output h =
      let b : Buffer = slice_buffer output in
      let ((size, root, b'), e, p) =
        Post-ok (slice_frame (length output)) (serialize_into c.formula c.ser v b) tt
          (record { within = h; small = small })
          (serialize_into-Ensures c w laws v b val (output, sym (append-nil output))) in
      (
        (size, root, slice_bytes b'),
        ap with_bytes e,
        Serialized-Decodes c w laws v (slice_frame (length output)) size root b' val
            (Serialized-HoldsBytes w v (slice_frame (length output)) (size, root, b') tt p) p,
      )

  -- For a codec that keeps the contract `IsCodec` and a value of its type that takes fewer
  -- bytes than a `FixedUsizeType` can count: `serialized_size` returns the number of bytes of
  -- the image and of its root.
  pub serialized_size_lem : serialized_size c.formula c.ser v ≡ ok (whole_len w v, w.stack_len v)
  unfolding serialized_size
  serialized_size_lem =
      let ((z, b'), e, (hb, sb, q, eh, es, h)) =
        Post-ok dry_frame (c.ser.serialize v sizes_zero dry_buffer) tt
          (record { within = tt; small = omega arith })
          (laws.writer.writes v dry_frame dry_buffer sizes_zero [] [] val
            (record { same = refl; heap = refl; stack = refl; content = tt })) in
      let (lh, ls) = w.lengths v 0 hb sb q in
      let all : z.heap + z.stack ≡ whole_len w v = omega arith in
      let root : z.stack ≡ w.stack_len v = omega arith in rw (e, all, root)

  -- For a codec that keeps the contract `IsCodec` and a value of its type that takes fewer
  -- bytes than a `FixedUsizeType` can count: `serialize_or_size` into a slice that is long
  -- enough succeeds, and the value is read back; into a shorter one it returns the number of
  -- bytes that are required.
  pub serialize_or_size_lem :
      (output : Bytes)
      → ((whole_len w v ≤ length output)
          × ((r : ℕ × ℕ × Bytes) × (serialize_or_size c.formula c.ser v output ≡ ok r)
              × Decodes c w v r))
        ⊎ ((length output < whole_len w v)
            × (serialize_or_size c.formula c.ser v output
                ≡ err (record { required = whole_len w v })))
  unfolding serialize_or_size
  serialize_or_size_lem output =
      let b : Buffer = maybe_fixed_buffer output false in
      let ((size, root, b'), e, p) =
        Post-ok (maybe_frame (length output)) (serialize_into c.formula c.ser v b) tt
          (record { within = tt; small = small })
          (serialize_into-Ensures c w laws v b val (output, sym (append-nil output))) in
      let start : serialize_or_size c.formula c.ser v output ≡ or_size (ok (size, root, b')) =
        ap or_size e in
      elim (by_flag c w laws v val output size root b' p) [
        | inl (fits, (r, e', d)) ↦ inl (fits, (r, start ∙ e', d))
        | inr (short, e') ↦ inr (short, start ∙ e')
      ]
