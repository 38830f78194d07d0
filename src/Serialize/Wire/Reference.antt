-- ===== src/Serialize/Wire/Reference.antt =====
-- `write_ref` against the wire format.
use alkahest.Prelude.{
  ℕ, ◌+◌, ◌≡◌, ◌≢◌, refl, sym, ap, subst, ◌∙◌, ◌++◌, [], ◌∷◌, inl, inr, true, Option, none, some,
  length, eq→==, arith, length-append, append_assoc, append-nil, nil_of_length,
}
use alkahest.Prelude.Words.{Bytes}
use alkahest.Outcome.{ok, err, panic, sub_eq}
use alkahest.Formula.{Formula}
use alkahest.Sizes.{Sizes, total, add_heap, with_heap}
use alkahest.Buffer.{
  Buffer, Write, dry_buffer, slice_buffer, checked_fixed_buffer, maybe_fixed_buffer, vec_buffer,
  move_to_heap, reserve_heap, slice_bytes, write_back,
}
use alkahest.Buffer.Holds.{
  Frame, dry_frame, slice_frame, checked_frame, maybe_frame, vec_frame, Holds, Ensures,
  Ensures-bind, Holds-eq, Fits, Fits-mono, Room, Post,
}
use alkahest.Buffer.Heap.{move_to_heap-Ensures}
use alkahest.Buffer.Reserve.{reserve_heap-Ensures}
use alkahest.Serialize.{
  Serialize, write_field, write_ref, write_ref_slow, write_ref_hinted, write_ref_into,
  write_ref_reserved, to_heap,
}
use alkahest.Serialize.Wire.{WireFormat, IsWriter, IsSized}
use alkahest.Serialize.Wire.Field.{write_field-Ensures, FieldWire, field_len}

-- The value has become the end of the heap; the call returns the length of its stack bytes.
abbrev pub Referred :
    {T : Type 0} → WireFormat T → T → Sizes → Bytes → Bytes → Frame → ℕ × Sizes × Buffer → Type 0
Referred w v z H S k (size, z', b') =
    (hb : Bytes) × (sb : Bytes) × w.Wire v (length H) hb sb
    × (size ≡ length sb)
    × (z'.heap ≡ z.heap + (length hb + length sb))
    × (z'.stack ≡ z.stack)
    × Holds k b' z' (H ++ (hb ++ sb)) S

module _ {T : Type 0} (f : Formula) (s : Serialize T) (w : WireFormat T) (writer : IsWriter s w)
    (sized : IsSized f w) where
  field_last :
      (m : Option ℕ) (v : T) (H hb sb : Bytes)
      → FieldWire m true (w.Wire v (length H) hb) sb
      → w.Wire v (length H) hb sb
  field_last none v H hb sb q = q
  field_last (some m) v H hb sb q = q

  field_len_last : (m : Option ℕ) (n : ℕ) → field_len m true n ≡ n
  field_len_last none n = refl
  field_len_last (some m) n = refl

  write_ref_slow-Ensures :
      (v : T) (k : Frame) (b : Buffer) (z : Sizes) (H S : Bytes)
      → w.IsValue v
      → Holds k b z H S
      → Ensures k
          (total z + (w.heap_len v + w.stack_len v))
          (Referred w v z H S k)
          (write_ref_slow f s v z b)
  unfolding write_ref_slow to_heap
  write_ref_slow-Ensures v k b z H S val h =
      Ensures-bind k (write_field f s v z b true) _
        (omega (arith, field_len_last f.max_stack_size (w.stack_len v)))
        (write_field-Ensures s w writer f true v k b z H S sized val h)
        (λ (z1, b1) (hb, sb, (lh, q'), eh, es, h1) fits room.
          let q = field_last f.max_stack_size v H hb sb q' in
          let (lh', ls) = w.lengths v (length H) hb sb q in
          let z2 : Sizes = record { heap = z1.heap + length sb; stack = z.stack } in
          rw
            (
              sub_eq z1.stack z.stack (length sb) es,
              sub_eq (z1.heap + length sb) (length sb) z1.heap (omega arith),
              ← es,
            )
            ((Ensures-bind k (move_to_heap b1 z1.heap z1.stack (length sb)) _ (omega arith)
                (move_to_heap-Ensures z2 sb h1 refl (omega arith))
                (λ b2 h2 fits2 room2. (
                  Fits-mono k (omega arith) fits2,
                  (
                    hb,
                    sb,
                    q,
                    refl,
                    omega arith,
                    refl,
                    Holds-eq h2 refl refl (append_assoc H hb sb) refl,
                  ),
                ))).post
              room))

-- The frames of infallible buffers.
abbrev pub Sure : Frame → Type 0
Sure (checked_frame n) = ⊥
Sure (slice_frame n) = Unit
Sure dry_frame = Unit
Sure (maybe_frame n) = Unit
Sure vec_frame = Unit

slice_inj : {m n : ℕ} → slice_frame m ≡ slice_frame n → m ≡ n
slice_inj e = cc e

-- An infallible buffer returns a value.
pub Post-ok :
    {A : Type 0} (k : Frame) {n : ℕ} {P : A → Type 0} (r : Write A)
    → Sure k
    → Room k n
    → Ensures k n P r
    → (a : A) × (r ≡ ok a) × P a
Post-ok k (ok a) sure room p = (a, refl, (p.post room).1)
Post-ok dry_frame (err e) sure room p = absurd (p.post room)
Post-ok (slice_frame n) (err e) sure room p = absurd (p.post room)
Post-ok (maybe_frame n) (err e) sure room p = absurd (p.post room)
Post-ok vec_frame (err e) sure room p = absurd (p.post room)
Post-ok (checked_frame n) (err e) sure room p = absurd sure
Post-ok k panic sure room p = absurd (p.post room)

-- A slice that is full holds the heap and then the stack.
pub full_slice :
    (b : Buffer) (n : ℕ) {z : Sizes} (H S : Bytes)
    → Holds (slice_frame n) b z H S
    → n ≡ length H + length S
    → slice_bytes b ≡ H ++ S
unfolding slice_bytes
full_slice (slice_buffer buf) n H S h e =
    let G = h.content.0 in
    let len : length buf ≡ length H + (length G + length S) =
      ap length h.content.1 ∙ omega (arith, length-append H (G ++ S), length-append G S) in
    let width : length buf ≡ n = slice_inj h.same in
    h.content.1 ∙ ap (λ t. H ++ (t ++ S)) (nil_of_length G (omega arith))
full_slice dry_buffer n H S h e = absurd (cc h.same)
full_slice (checked_fixed_buffer buf) n H S h e = absurd (cc h.same)
full_slice (maybe_fixed_buffer buf x) n H S h e = absurd (cc h.same)
full_slice (vec_buffer buf) n H S h e = absurd (cc h.same)

module _ {T : Type 0} (f : Formula) (s : Serialize T) (w : WireFormat T) (writer : IsWriter s w)
    (sized : IsSized f w) where
  write_ref_into-nonempty :
      (v : T) (promised z : Sizes) (b : Buffer) (region : Bytes)
      → region ≢ []
      → write_ref_into f s v promised z b region ≡ write_ref_reserved f s v promised z b region
  unfolding write_ref_into
  write_ref_into-nonempty v promised z b [] h = absurd (h refl)
  write_ref_into-nonempty v promised z b (x ∷ xs) h = refl

  module _ (v : T) (k : Frame) (z promised : Sizes) (H S : Bytes) (val : w.IsValue v)
      (eh : z.heap ≡ length H) (ph : promised.heap ≡ w.heap_len v)
      (ps : promised.stack ≡ w.stack_len v) where
    -- The slice was reserved: the value fills it.
    write_ref_reserved-Post :
        (b : Buffer) (R : Bytes)
        → length R ≡ total promised
        → ((M : Bytes)
            → length M ≡ total promised
            → Holds k (write_back b (H ++ M)) (add_heap z (total promised)) (H ++ M) S)
        → Fits k (total z + total promised)
        → Room k (total z + total promised)
        → Post k
            (total z + total promised)
            (Referred w v z H S k)
            (write_ref_reserved f s v promised z b (H ++ R))
    unfolding write_ref_reserved
    write_ref_reserved-Post b R lr back fits room =
        let region = H ++ R in
        let lreg : length region ≡ length H + total promised = omega (arith, length-append H R) in
        let h0 : Holds (slice_frame (length region)) (slice_buffer region) (with_heap z.heap) H [] =
          record {
            same = refl;
            heap = eh;
            stack = refl;
            content = (R, ap (λ t. H ++ t) (sym (append-nil R)));
          } in
        let room0 : Room (slice_frame (length region))
            (z.heap + 0 + (w.heap_len v + w.stack_len v)) =
          record { within = omega arith; small = omega (arith, room.small) } in
        let ((z', b'), r, (hb, sb, q, eh', es', h')) =
          Post-ok (slice_frame (length region))
            (s.serialize v (with_heap z.heap) (slice_buffer region)) tt room0
            (writer.writes v (slice_frame (length region)) (slice_buffer region) (with_heap z.heap)
              H [] val h0) in
        let (lh, ls) = w.lengths v (length H) hb sb q in
        let bytes : slice_bytes b' ≡ H ++ (hb ++ sb) =
          full_slice b' (length region) (H ++ hb) (sb ++ []) h'
            (omega (arith, length-append H hb, length-append sb []))
          ∙ ap (λ t. (H ++ hb) ++ t) (append-nil sb)
          ∙ append_assoc H hb sb in
        let lm : length (hb ++ sb) ≡ total promised = omega (arith, length-append hb sb) in
        rw
          (
            r,
            eq→== z'.heap (z.heap + promised.heap) (omega arith),
            eq→== z'.stack promised.stack (omega arith),
            bytes,
          )
          (
            fits,
            (
              hb,
              sb,
              q,
              omega arith,
              omega arith,
              refl,
              Holds-eq (back (hb ++ sb) lm) (omega arith) refl refl refl,
            ),
          )

    -- Nothing was reserved: the value is measured on a dry buffer.
    write_ref_dry-Post :
        (b : Buffer)
        → z.stack ≡ length S
        → ((M : Bytes)
            → length M ≡ total promised
            → Holds k b (add_heap z (total promised)) (H ++ M) S)
        → Fits k (total z + total promised)
        → Room k (total z + total promised)
        → Post k
            (total z + total promised)
            (Referred w v z H S k)
            (write_ref_into f s v promised z b [])
    unfolding write_ref_into
    write_ref_dry-Post b es skip fits room =
        let room0 : Room dry_frame (total z + (w.heap_len v + w.stack_len v)) = record {
          within = tt;
          small = omega (arith, room.small);
        } in
        let ((size, z', b'), r, (hb, sb, q, esz, eh', es', h')) =
          Post-ok dry_frame (write_ref_slow f s v z dry_buffer) tt room0 (
            write_ref_slow-Ensures f s w writer sized v dry_frame dry_buffer z H S val
              (record { same = refl; heap = eh; stack = es; content = tt })) in
        let (lh, ls) = w.lengths v (length H) hb sb q in
        let lm : length (hb ++ sb) ≡ total promised = omega (arith, length-append hb sb) in
        rw r (
          fits,
          (hb, sb, q, esz, eh', es', Holds-eq (skip (hb ++ sb) lm) (omega arith) es' refl refl),
        )

  write_ref_hinted-Ensures :
      (hint : Option Sizes) (v : T) (k : Frame) (b : Buffer) (z : Sizes) (H S : Bytes)
      → w.IsValue v
      → ((p : Sizes) → hint ≡ some p → (p.heap ≡ w.heap_len v) × (p.stack ≡ w.stack_len v))
      → Holds k b z H S
      → Ensures k
          (total z + (w.heap_len v + w.stack_len v))
          (Referred w v z H S k)
          (write_ref_hinted f s hint v z b)
  unfolding write_ref_hinted
  write_ref_hinted-Ensures none v k b z H S val promise h =
      write_ref_slow-Ensures f s w writer sized v k b z H S val h
  write_ref_hinted-Ensures (some p) v k b z H S val promise h =
      let (ph, ps) = promise p refl in
      let same : total z + total p ≡ total z + (w.heap_len v + w.stack_len v) = omega arith in
      subst (λ n. Ensures k n (Referred w v z H S k) (write_ref_hinted f s (some p) v z b)) same
        (Ensures-bind k (reserve_heap b z.heap z.stack (total p)) _ (omega arith)
          (reserve_heap-Ensures (total p) h)
          (λ (b', region) reserved fits room. elim reserved [
            | inl (nil, skip) ↦
                rw nil (write_ref_dry-Post v k z p H S val h.heap ph ps b' h.stack skip fits room)
            | inr (R, filled, e, lr, back, kept) ↦
                rw (write_ref_into-nonempty v p z b' region filled, e)
                  (write_ref_reserved-Post v k z p H S val h.heap ph ps b' R lr back fits room)
          ]))

  -- `write_ref` puts an image of the value at the end of the heap, whether or not its size was known
  -- before, and into every kind of buffer.
  pub write_ref-Ensures :
      (v : T) (k : Frame) (b : Buffer) (z : Sizes) (H S : Bytes)
      → w.IsValue v
      → Holds k b z H S
      → Ensures k
          (total z + (w.heap_len v + w.stack_len v))
          (Referred w v z H S k)
          (write_ref f s v z b)
  unfolding write_ref
  write_ref-Ensures v k b z H S val h =
      write_ref_hinted-Ensures (s.size_hint v) v k b z H S val (λ p e. writer.hint v p val e) h

  -- For a writer that keeps the contract, a formula whose constants bound it, and a buffer that
  -- holds a heap and a stack and has room: `write_ref` never panics; it fails only if the
  -- buffer is a checked one that is too short; else it returns the length of the root, and the
  -- value's image is the new end of the heap, whether `size_hint` gave its size or not.
  pub write_ref-Post :
      (v : T) (k : Frame) (b : Buffer) (z : Sizes) (H S : Bytes)
      → w.IsValue v
      → Holds k b z H S
      → Room k (total z + (w.heap_len v + w.stack_len v))
      → Post k
          (total z + (w.heap_len v + w.stack_len v))
          (Referred w v z H S k)
          (write_ref f s v z b)
  write_ref-Post v k b z H S val h room = (write_ref-Ensures v k b z H S val h).post room
