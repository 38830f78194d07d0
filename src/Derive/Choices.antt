-- ===== src/Derive/Choices.antt =====
-- The image of a variant of an enum, and what the generated code of proc/src/serialize.rs and
-- proc/src/deserialize.rs does with it.
use alkahest.Prelude.{
  ℕ, suc, ◌+◌, ◌<◌, ◌^◌, ◌≤◌, ◌≡◌, refl, sym, ap, subst, ◌∙◌, ◌++◌, [], Option, none, some, length,
  arith, length-append, append_assoc, eq→==, inl, inr,
}
use alkahest.Prelude.Words.{Bytes, to_le_bytes, length-to_le_bytes}
use alkahest.Outcome.{ok}
use alkahest.Formula.{max_size, sum_size}
use alkahest.Sizes.{Sizes, total}
use alkahest.Buffer.{Buffer}
use alkahest.Buffer.Holds.{Frame, Holds, Ensures, Ensures-bind, Ensures-map, Fits}
use alkahest.Serialize.{write_bytes}
use alkahest.Serialize.Wire.{WireFormat, Written}
use alkahest.Serialize.Wire.Field.{write_bytes-Ensures}
use alkahest.Deserialize.Reads.{at_end}
use alkahest.Deserialize.Fields.{read_value-field}
use alkahest.Primitive.{int_serialize}
use alkahest.Primitive.Laws.{int_wire, int-IsCodec}
use alkahest.Derive.{
  Fields, Variants, no_more, variant, Choice, variant_size, u32, write_exact_size_field,
  write_variant, write_variants, read_variants, enum_deserialize, fields_max, variants_max, Values,
  enum_formula,
}
use alkahest.Derive.Images.{Lawful, fields_wire, write_fields-Ensures, read_fields-reads}

unfoldable pub AllLawful : Variants → Type 1
unfolding Lawful
AllLawful no_more = Unit
AllLawful (variant fs vs) = Lawful fs × AllLawful vs

-- The place of the variant, which is its index.
unfoldable pub place : (vs : Variants) → Choice vs → ℕ
unfolding Choice
place no_more v = absurd v
place (variant fs vs) (inl v) = 0
place (variant fs vs) (inr w) = suc (place vs w)

-- The variant's values, lengths and image, without the index.
unfoldable pub IsChoice : (vs : Variants) → AllLawful vs → Choice vs → Type 0
unfolding Choice AllLawful fields_wire
IsChoice no_more l w = ⊥
IsChoice (variant fs vs) (l, ls) (inl v) = (fields_wire fs l).IsValue v
IsChoice (variant fs vs) (l, ls) (inr w) = IsChoice vs ls w

unfoldable pub choice_heap : (vs : Variants) → AllLawful vs → Choice vs → ℕ
unfolding Choice AllLawful fields_wire
choice_heap no_more l w = absurd w
choice_heap (variant fs vs) (l, ls) (inl v) = (fields_wire fs l).heap_len v
choice_heap (variant fs vs) (l, ls) (inr w) = choice_heap vs ls w

unfoldable pub choice_stack : (vs : Variants) → AllLawful vs → Choice vs → ℕ
unfolding Choice AllLawful fields_wire
choice_stack no_more l w = absurd w
choice_stack (variant fs vs) (l, ls) (inl v) = (fields_wire fs l).stack_len v
choice_stack (variant fs vs) (l, ls) (inr w) = choice_stack vs ls w

unfoldable pub ChoiceWire : (vs : Variants) → AllLawful vs → Choice vs → ℕ → Bytes → Bytes → Type 0
unfolding Choice AllLawful fields_wire
ChoiceWire no_more l w a hb sb = ⊥
ChoiceWire (variant fs vs) (l, ls) (inl v) a hb sb = (fields_wire fs l).Wire v a hb sb
ChoiceWire (variant fs vs) (l, ls) (inr w) a hb sb = ChoiceWire vs ls w a hb sb

pub choice_lengths :
    (vs : Variants) (l : AllLawful vs) (w : Choice vs) (a : ℕ) (hb sb : Bytes)
    → ChoiceWire vs l w a hb sb
    → (length hb ≡ choice_heap vs l w) × (length sb ≡ choice_stack vs l w)
unfolding Choice AllLawful ChoiceWire choice_heap choice_stack
choice_lengths no_more l w a hb sb q = absurd q
choice_lengths (variant fs vs) (l, ls) (inl v) a hb sb q = (fields_wire fs l).lengths v a hb sb q
choice_lengths (variant fs vs) (l, ls) (inr w) a hb sb q = choice_lengths vs ls w a hb sb q

-- The index stands behind the fields.
abbrev pub enum_wire : (vs : Variants) → AllLawful vs → WireFormat (Choice vs)
enum_wire vs l = record {
  IsValue = λ w. IsChoice vs l w × (place vs w < 256 ^ variant_size);
  heap_len = choice_heap vs l;
  stack_len = λ w. variant_size + choice_stack vs l w;
  Wire = λ w a hb sb.
      (sr : Bytes) × ChoiceWire vs l w a hb sr × (sb ≡ sr ++ to_le_bytes variant_size (place vs w));
  lengths = λ w a hb sb (sr, q, e).
      let tag = to_le_bytes variant_size (place vs w) in
      let (lh, ls) = choice_lengths vs l w a hb sr q in
      (
        lh,
        omega (
          arith,
          ap length e,
          length-append sr tag,
          length-to_le_bytes variant_size (place vs w),
        ),
      );
}

-- The index and then the fields: what `write_variants` has written.
abbrev Chosen :
    (vs : Variants)
    → AllLawful vs
    → Choice vs
    → ℕ
    → Sizes
    → Bytes
    → Bytes
    → Frame
    → Sizes × Buffer
    → Type 0
Chosen vs l w idx z H S k (z', b') =
    (hb : Bytes) × (sr : Bytes) × ChoiceWire vs l w (length H) hb sr
    × (z'.heap ≡ z.heap + length hb)
    × (z'.stack ≡ z.stack + (length sr + variant_size))
    × Holds k b' z' (H ++ hb) (sr ++ (to_le_bytes variant_size idx ++ S))

tag-Ensures :
    (idx : ℕ) (k : Frame) (b : Buffer) (z : Sizes) (H S : Bytes)
    → Holds k b z H S
    → Ensures k
        (total z + variant_size)
        (λ r.
          (r.0.heap ≡ z.heap)
          × (r.0.stack ≡ z.stack + variant_size)
          × Holds k r.1 r.0 H (to_le_bytes variant_size idx ++ S))
        (write_exact_size_field u32.formula u32.ser idx z b)
unfolding write_exact_size_field int_serialize
tag-Ensures idx k b z H S h =
    let tag = to_le_bytes variant_size idx in
    let lt = length-to_le_bytes variant_size idx in
    Ensures-bind k (write_bytes tag z b) _ (omega arith) (write_bytes-Ensures tag h)
      (λ (z1, b1) (eh, es, h1) fits room.
        rw (eq→== (z.stack + variant_size) z1.stack (omega arith))
          (subst (λ n. Fits k n) (omega arith) fits, (eh, omega arith, h1)))

write_variant-Ensures :
    (idx : ℕ) (fs : Fields) (l : Lawful fs) (v : Values fs) (k : Frame) (b : Buffer) (z : Sizes)
    (H S : Bytes)
    → (fields_wire fs l).IsValue v
    → Holds k b z H S
    → Ensures k
        (total z
          + ((fields_wire fs l).heap_len v + (variant_size + (fields_wire fs l).stack_len v)))
        (λ (z', b').
          (hb : Bytes) × (sr : Bytes) × (fields_wire fs l).Wire v (length H) hb sr
          × (z'.heap ≡ z.heap + length hb)
          × (z'.stack ≡ z.stack + (length sr + variant_size))
          × Holds k b' z' (H ++ hb) (sr ++ (to_le_bytes variant_size idx ++ S)))
        (write_variant idx fs v z b)
unfolding write_variant
write_variant-Ensures idx fs l v k b z H S val h =
    Ensures-bind k (write_exact_size_field u32.formula u32.ser idx z b) _ (omega arith)
      (tag-Ensures idx k b z H S h)
      (λ (z1, b1) (eh, es, h1) fits room.
        (Ensures-map
            (write_fields-Ensures fs l v k b1 z1 H (to_le_bytes variant_size idx ++ S) val h1)
            (omega arith)
            (λ (z2, b2) (hb, sr, q, eh', es', h2). (hb, sr, q, omega arith, omega arith, h2))).post
          room)

write_variants-Ensures :
    (idx : ℕ) (vs : Variants) (l : AllLawful vs) (w : Choice vs) (k : Frame) (b : Buffer)
    (z : Sizes) (H S : Bytes)
    → IsChoice vs l w
    → Holds k b z H S
    → Ensures k
        (total z + (choice_heap vs l w + (variant_size + choice_stack vs l w)))
        (Chosen vs l w (idx + place vs w) z H S k)
        (write_variants idx vs w z b)
unfolding Choice AllLawful IsChoice choice_heap choice_stack ChoiceWire place write_variants
write_variants-Ensures idx no_more l w k b z H S val h = absurd w
write_variants-Ensures idx (variant fs vs) (l, ls) (inl v) k b z H S val h =
    Ensures-map (write_variant-Ensures idx fs l v k b z H S val h) (omega arith)
      (λ (z', b') (hb, sr, q, eh, es, h'). (
        hb,
        sr,
        q,
        eh,
        es,
        subst (λ n. Holds k b' z' (H ++ hb) (sr ++ (to_le_bytes variant_size n ++ S))) (omega arith)
            h',
      ))
write_variants-Ensures idx (variant fs vs) (l, ls) (inr w) k b z H S val h =
    Ensures-map (write_variants-Ensures (suc idx) vs ls w k b z H S val h) (omega arith)
      (λ (z', b') (hb, sr, q, eh, es, h'). (
        hb,
        sr,
        q,
        eh,
        es,
        subst (λ n. Holds k b' z' (H ++ hb) (sr ++ (to_le_bytes variant_size n ++ S))) (omega arith)
            h',
      ))

pub enum-writes :
    (vs : Variants) (l : AllLawful vs) (w : Choice vs) (k : Frame) (b : Buffer) (z : Sizes)
    (H S : Bytes)
    → (enum_wire vs l).IsValue w
    → Holds k b z H S
    → Ensures k
        (total z + ((enum_wire vs l).heap_len w + (enum_wire vs l).stack_len w))
        (Written (enum_wire vs l) w z H S k)
        (write_variants 0 vs w z b)
enum-writes vs l w k b z H S (val, lt) h =
    let tag = to_le_bytes variant_size (place vs w) in
    Ensures-map (write_variants-Ensures 0 vs l w k b z H S val h) refl
      (λ (z', b') (hb, sr, q, eh, es, h'). (
        hb,
        sr ++ tag,
        (sr, q, refl),
        eh,
        omega (arith, length-append sr tag, length-to_le_bytes variant_size (place vs w)),
        subst (λ n. Holds k b' z' (H ++ hb) n) (sym (append_assoc sr tag S))
            (subst (λ n. Holds k b' z' (H ++ hb) (sr ++ (to_le_bytes variant_size n ++ S)))
              (omega arith) h'),
      ))

-- Where one variant has no maximum, the enum has none.
none_max : (vs : Variants) → variants_max none vs ≡ none
unfolding variants_max
none_max no_more = refl
none_max (variant fs vs) = none_max vs

max_none : (acc : Option ℕ) → max_size acc none ≡ none
max_none none = refl
max_none (some a) = refl

read_variants-reads :
    (acc : Option ℕ) (i : ℕ) (vs : Variants) (l : AllLawful vs) (w : Choice vs)
    (front hb mid sr pre : Bytes) (k : ℕ)
    → IsChoice vs l w
    → ChoiceWire vs l w (length front) hb sr
    → pre ≡ front ++ (hb ++ mid)
    → k ≤ length pre
    → (variants_max acc vs ≡ none → k ≡ 0)
    → read_variants i (place vs w) vs (at_end pre sr k) ≡ ok w
unfolding Choice AllLawful IsChoice ChoiceWire place read_variants variants_max
read_variants-reads acc i no_more l w front hb mid sr pre k val q e hk h0 = absurd w
read_variants-reads acc i (variant fs vs) (l, ls) (inl v) front hb mid sr pre k val q e hk h0 = rw (
    read_fields-reads fs l v front hb mid sr pre k val q e hk
      (λ n. h0 (ap (λ t. variants_max t vs) (ap (max_size acc) n ∙ max_none acc) ∙ none_max vs)))
read_variants-reads acc i (variant fs vs) (l, ls) (inr w) front hb mid sr pre k val q e hk h0 = rw (
    read_variants-reads (max_size acc (fields_max (some 0) fs)) i vs ls w front hb mid sr pre k val
      q e hk h0)

pub enum-reads :
    (vs : Variants) (l : AllLawful vs) (w : Choice vs) (front hb mid sb pre : Bytes) (k : ℕ)
    → (enum_wire vs l).IsValue w
    → (enum_wire vs l).Wire w (length front) hb sb
    → pre ≡ front ++ (hb ++ mid)
    → k ≤ length pre
    → ((enum_formula vs).max_stack_size ≡ none → k ≡ 0)
    → enum_deserialize vs (at_end pre sb k) ≡ ok w
unfolding enum_deserialize
enum-reads vs l w front hb mid sb pre k (val, lt) (sr, q, es) e hk h0 =
    let tag = to_le_bytes variant_size (place vs w) in
    let regroup : at_end pre sb k ≡ at_end (pre ++ sr) tag (k + length sr) =
      rw (es, ← append_assoc pre sr tag)
        (ap (λ n. record { input = (pre ++ sr) ++ tag; stack = n })
          (omega (arith, length-append sr tag))) in
    ap (enum_deserialize vs) regroup
    ∙ rw (
      read_value-field u32.formula u32.de (int_wire variant_size) (int-IsCodec variant_size).reader
          (place vs w) [] [] (pre ++ sr) tag (pre ++ sr) (k + length sr) lt
          ([], tag, (refl, refl), refl, length-to_le_bytes variant_size (place vs w)) refl,
      read_variants-reads (some 0) (place vs w) vs l w front hb mid sr pre k val q e hk
          (λ n. h0 (ap (sum_size (some variant_size)) n)),
    )
