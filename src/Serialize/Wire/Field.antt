-- ===== src/Serialize/Wire/Field.antt =====
-- `write_bytes` and `write_field` against the wire format.
use alkahest.Prelude.{
  ℕ, ◌+◌, ◌-◌, ◌≤◌, ◌<◌, ◌≡◌, refl, sym, ap, ◌∙◌, ◌++◌, [], Bool, true, false, Option, none, some,
  length, le→leb, eq→==, arith, replicate, length-replicate, length-append, append_assoc, some_inj,
}
use alkahest.Prelude.Words.{Bytes, to_le_bytes, length-to_le_bytes}
use alkahest.Outcome.{sub_eq, ◌>>=◌}
use alkahest.Formula.{Formula, size_stack, usize_limit}
use alkahest.Size.{usize_truncate_lem}
use alkahest.Sizes.{Sizes, total}
use alkahest.Buffer.{Buffer, write_stack, pad_stack}
use alkahest.Buffer.Holds.{Frame, Holds, Ensures, Ensures-bind, Holds-eq, Fits-mono, Room, Post}
use alkahest.Buffer.Laws.{write_stack-Ensures, pad_stack-Ensures}
use alkahest.Buffer.Over.{write_stack_over}
use alkahest.Serialize.{Serialize, write_bytes, write_field, open_field, close_field}
use alkahest.Serialize.Wire.{WireFormat, Written, IsWriter, IsSized}

-- Raw bytes are their own image.
pub write_bytes-Ensures :
    {k : Frame} {b : Buffer} {z : Sizes} {H S : Bytes} (bytes : Bytes)
    → Holds k b z H S
    → Ensures k
        (total z + length bytes)
        (λ r.
          (r.0.heap ≡ z.heap)
          × (r.0.stack ≡ z.stack + length bytes)
          × Holds k r.1 r.0 H (bytes ++ S))
        (write_bytes bytes z b)
unfolding write_bytes
write_bytes-Ensures {k} {b} {z} bytes h =
    Ensures-bind k (write_stack b z.heap z.stack bytes) _ (omega arith)
      (write_stack-Ensures bytes h) (λ b' h' fits room. (fits, (refl, refl, h')))

-- The stack bytes of a field whose value has `n` of them.
abbrev pub field_len : Option ℕ → Bool → ℕ → ℕ
field_len none false n = n + size_stack
field_len none true n = n
field_len (some m) true n = n
field_len (some m) false n = m

-- An unsized field that is not the last stands below its size; a sized one is padded to its maximum.
abbrev pub FieldWire : Option ℕ → Bool → (Bytes → Type 0) → Bytes → Type 0
FieldWire none false W sb =
    (sv : Bytes) × W sv
    × (length sv < usize_limit)
    × (sb ≡ sv ++ to_le_bytes size_stack (length sv))
FieldWire none true W sb = W sb
FieldWire (some m) true W sb = W sb
FieldWire (some m) false W sb =
    (pad : Bytes) × (sv : Bytes) × W sv × (sb ≡ pad ++ sv) × (length sb ≡ m)

pub FieldWire-length :
    (m : Option ℕ) (last : Bool) (W : Bytes → Type 0) (sb : Bytes) (n : ℕ)
    → ((sv : Bytes) → W sv → length sv ≡ n)
    → FieldWire m last W sb
    → length sb ≡ field_len m last n
FieldWire-length none false W sb n l (sv, q, lt, e) =
    ap length e
    ∙ omega (
      arith,
      length-append sv (to_le_bytes size_stack (length sv)),
      length-to_le_bytes size_stack (length sv),
      l sv q,
    )
FieldWire-length none true W sb n l q = l sb q
FieldWire-length (some m) true W sb n l q = l sb q
FieldWire-length (some m) false W sb n l (pad, sv, q, e, len) = len

-- The image of a value as a field.
abbrev pub field : {T : Type 0} → Formula → Bool → WireFormat T → WireFormat T
field f last w = record {
  IsValue = w.IsValue;
  heap_len = w.heap_len;
  stack_len = λ v. field_len f.max_stack_size last (w.stack_len v);
  Wire =
      λ v a hb sb. (length hb ≡ w.heap_len v) × FieldWire f.max_stack_size last (w.Wire v a hb) sb;
  lengths = λ v a hb sb q. (
    q.0,
    FieldWire-length f.max_stack_size last (w.Wire v a hb) sb (w.stack_len v)
        (λ sv q'. (w.lengths v a hb sv q').1) q.1,
  );
}

-- The bytes that are kept for the size of an unsized field.
abbrev placeholder : Bytes
placeholder = replicate size_stack 0

length-placeholder : length placeholder ≡ size_stack
length-placeholder = length-replicate size_stack 0

open_field-Ensures :
    {k : Frame} {b : Buffer} {z : Sizes} {H S : Bytes}
    → Holds k b z H S
    → Ensures k
        (total z + size_stack)
        (λ r.
          (r.0.heap ≡ z.heap)
          × (r.0.stack ≡ z.stack + size_stack)
          × Holds k r.1 r.0 H (placeholder ++ S))
        (open_field none false z b)
unfolding open_field
open_field-Ensures {k} {b} {z} h =
    Ensures-bind k (write_stack b z.heap z.stack placeholder) _ (omega (arith, length-placeholder))
      (write_stack-Ensures placeholder h)
      (λ b' h' fits room. (
        Fits-mono k (omega (arith, length-placeholder)) fits,
        (refl, refl, Holds-eq h' refl (omega (arith, length-placeholder)) refl refl),
      ))

module _ {T : Type 0} (s : Serialize T) (w : WireFormat T) (writer : IsWriter s w) where
  -- The three steps of `write_field`, for any constants of the formula.
  field_steps :
      (m : Option ℕ) (x last : Bool) (v : T) (k : Frame) (b : Buffer) (z : Sizes) (H S : Bytes)
      → w.IsValue v
      → ((n : ℕ) → m ≡ some n → w.stack_len v ≤ n)
      → (x ≡ true → m ≡ some (w.stack_len v))
      → Holds k b z H S
      → Ensures k
          (total z + (w.heap_len v + field_len m last (w.stack_len v)))
          (λ r.
            (hb : Bytes) × (sb : Bytes) × ((length hb ≡ w.heap_len v)
              × FieldWire m last (w.Wire v (length H) hb) sb)
            × (r.0.heap ≡ z.heap + length hb)
            × (r.0.stack ≡ z.stack + length sb)
            × Holds k r.1 r.0 (H ++ hb) (sb ++ S))
          (open_field m last z b >>= λ (z1, b1).
            s.serialize v z1 b1 >>= λ (z2, b2). close_field m x last z1.stack z2 b2)
  unfolding open_field close_field
  field_steps none x true v k b z H S val bnd ex h =
      Ensures-bind k (s.serialize v z b) _ (omega arith) (writer.writes v k b z H S val h)
        (λ (z2, b2) (hb, sb, q, eh, es, h2) fits room.
          (fits, (hb, sb, ((w.lengths v (length H) hb sb q).0, q), eh, es, h2)))
  field_steps none x false v k b z H S val bnd ex h =
      Ensures-bind k (open_field none false z b) _ (omega arith) (open_field-Ensures h)
        (λ (z1, b1) (eh1, es1, h1) fits1 room.
          (Ensures-bind k (s.serialize v z1 b1) _ (omega arith)
              (writer.writes v k b1 z1 H (placeholder ++ S) val h1)
              (λ (z2, b2) (hb, sb, q, eh, es, h2) fits room.
                let (lh, ls) = w.lengths v (length H) hb sb q in
                let word : Bytes = to_le_bytes size_stack (length sb) in
                let lw : length word ≡ size_stack = length-to_le_bytes size_stack (length sb) in
                let small : length sb < usize_limit = omega (arith, room.small) in
                let (b3, r3, h3) =
                  write_stack_over sb placeholder S word h2 (length-placeholder ∙ sym lw) in
                rw
                  (
                    sub_eq z2.stack z1.stack (length sb) es,
                    usize_truncate_lem (length sb) small,
                    sub_eq z1.stack size_stack (length S) (omega (arith, h.stack)),
                    r3,
                  )
                  (
                    Fits-mono k (omega arith) fits,
                    (
                      hb,
                      sb ++ word,
                      (lh, (sb, q, small, refl)),
                      eh ∙ ap (λ t. t + length hb) eh1,
                      omega (arith, length-append sb word),
                      Holds-eq h3 refl refl refl (sym (append_assoc sb word S)),
                    ),
                  ))).post
            room)
  field_steps (some m) false true v k b z H S val bnd ex h =
      Ensures-bind k (s.serialize v z b) _ (omega arith) (writer.writes v k b z H S val h)
        (λ (z2, b2) (hb, sb, q, eh, es, h2) fits room.
          let (lh, ls) = w.lengths v (length H) hb sb q in
          rw
            (
              sub_eq z2.stack z.stack (length sb) es,
              le→leb (length sb) m (omega (arith, bnd m refl)),
            )
            (fits, (hb, sb, (lh, q), eh, es, h2)))
  field_steps (some m) true true v k b z H S val bnd ex h =
      Ensures-bind k (s.serialize v z b) _ (omega arith) (writer.writes v k b z H S val h)
        (λ (z2, b2) (hb, sb, q, eh, es, h2) fits room.
          let (lh, ls) = w.lengths v (length H) hb sb q in
          rw
            (
              sub_eq z2.stack z.stack (length sb) es,
              eq→== (length sb) m (ls ∙ sym (some_inj (ex refl))),
            )
            (fits, (hb, sb, (lh, q), eh, es, h2)))
  field_steps (some m) false false v k b z H S val bnd ex h =
      Ensures-bind k (s.serialize v z b) _ (omega (arith, bnd m refl))
        (writer.writes v k b z H S val h)
        (λ (z2, b2) (hb, sb, q, eh, es, h2) fits room.
          let (lh, ls) = w.lengths v (length H) hb sb q in
          let le : length sb ≤ m = omega (arith, bnd m refl) in
          rw
            (
              sub_eq z2.stack z.stack (length sb) es,
              le→leb (length sb) m le,
              sub_eq (z.stack + m) z2.stack (m - length sb) (omega arith),
            )
            ((Ensures-bind k (pad_stack b2 z2.heap z2.stack (m - length sb)) _ (omega arith)
                (pad_stack-Ensures (m - length sb) h2)
                (λ b3 (pad, lp, h3) fits3 room3. (
                  Fits-mono k (omega arith) fits3,
                  (
                    hb,
                    pad ++ sb,
                    (lh, (pad, sb, q, refl, omega (arith, length-append pad sb))),
                    eh,
                    omega (arith, length-append pad sb),
                    Holds-eq h3 refl (omega arith) refl (sym (append_assoc pad sb S)),
                  ),
                ))).post
              room))
  field_steps (some m) true false v k b z H S val bnd ex h =
      let lm : m ≡ w.stack_len v = some_inj (ex refl) in
      Ensures-bind k (s.serialize v z b) _ (omega arith) (writer.writes v k b z H S val h)
        (λ (z2, b2) (hb, sb, q, eh, es, h2) fits room.
          let (lh, ls) = w.lengths v (length H) hb sb q in
          rw (sub_eq z2.stack z.stack (length sb) es, eq→== (length sb) m (ls ∙ sym lm))
            (
              Fits-mono k (omega arith) fits,
              (hb, sb, (lh, ([], sb, q, refl, ls ∙ sym lm)), eh, es, h2),
            ))

  -- `write_field` writes the image of a field: prefixed, padded or plain.
  pub write_field-Ensures :
      (f : Formula) (last : Bool) (v : T) (k : Frame) (b : Buffer) (z : Sizes) (H S : Bytes)
      → IsSized f w
      → w.IsValue v
      → Holds k b z H S
      → Ensures k
          (total z + (w.heap_len v + field_len f.max_stack_size last (w.stack_len v)))
          (Written (field f last w) v z H S k)
          (write_field f s v z b last)
  unfolding write_field
  write_field-Ensures f last v k b z H S sized val h =
      field_steps f.max_stack_size f.exact_size last v k b z H S val
        (λ n e. sized.bounded v n val e) (sized.exact v val) h

  -- For a writer that keeps the contract, a formula whose constants bound it, and a buffer that
  -- holds a heap and a stack and has room: `write_field` never panics; it fails only if the
  -- buffer is a checked one that is too short; else the image of the field stands on the stack:
  -- prefixed with its size if the formula has no maximum and the field is not the last, padded
  -- to the maximum if it has one and the field is not the last, and else plain.
  pub write_field-Post :
      (f : Formula) (last : Bool) (v : T) (k : Frame) (b : Buffer) (z : Sizes) (H S : Bytes)
      → IsSized f w
      → w.IsValue v
      → Holds k b z H S
      → Room k (total z + (w.heap_len v + field_len f.max_stack_size last (w.stack_len v)))
      → Post k
          (total z + (w.heap_len v + field_len f.max_stack_size last (w.stack_len v)))
          (Written (field f last w) v z H S k)
          (write_field f s v z b last)
  write_field-Post f last v k b z H S sized val h room =
      (write_field-Ensures f last v k b z H S sized val h).post room
