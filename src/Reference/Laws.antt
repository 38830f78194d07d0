-- ===== src/Reference/Laws.antt =====
-- The image of a reference, and the implementations of src/reference.rs.
use alkahest.Prelude.{
  ℕ, ◌+◌, ◌<◌, ◌≡◌, refl, sym, ap, ◌∙◌, ◌++◌, [], true, Option, none, some, length, arith,
  length-append, append_assoc, append-nil, some_inj,
}
use alkahest.Prelude.Words.{Bytes}
use alkahest.Outcome.{ok}
use alkahest.Formula.{Formula, usize_limit, reference_size, reference_size_pos}
use alkahest.Sizes.{Sizes, total}
use alkahest.Buffer.{Buffer}
use alkahest.Buffer.Holds.{Frame, Holds, Ensures, Ensures-bind, Fits-mono}
use alkahest.Serialize.{Serialize, write_ref, write_reference, hint_of_field}
use alkahest.Serialize.Wire.{WireFormat, Written, IsSized, IsWriter}
use alkahest.Serialize.Wire.Reference.{write_ref-Ensures}
use alkahest.Serialize.Wire.Address.{
  write_reference-Ensures, reference_bytes, length-reference_bytes,
}
use alkahest.Deserialize.{Deserialize, deref}
use alkahest.Deserialize.Reads.{IsReader, at_end}
use alkahest.Deserialize.References.{deref_lem, length-reference}
use alkahest.Codec.{Codec, IsCodec}
use alkahest.Reference.{
  ref, ref_formula, ref_hint, ref_serialize, ref_deserialize, ref_size_hint, is_empty_stack,
}

-- The value's heap bytes, then its stack bytes, on the heap; and the address of their end on the
-- stack, with the number of its stack bytes where that is not fixed.
abbrev pub ref_wire : {T : Type 0} → Formula → WireFormat T → WireFormat T
ref_wire f w = record {
  IsValue = w.IsValue;
  heap_len = λ v. w.heap_len v + w.stack_len v;
  stack_len = λ v. reference_size f;
  Wire = λ v a hb sb.
      (hv : Bytes) × (sv : Bytes) × w.Wire v a hv sv
      × (hb ≡ hv ++ sv)
      × (sb ≡ reference_bytes f.exact_size (length sv) (a + length hb))
      × (a + length hb < usize_limit);
  lengths = λ v a hb sb (hv, sv, q, eh, es, lt). (
    ap length eh ∙ omega (arith, length-append hv sv, w.lengths v a hv sv q),
    ap length es ∙ sym (length-reference f (length sv) (a + length hb)),
  );
}

pub empty_stack : (m : Option ℕ) → is_empty_stack m ≡ true → m ≡ some 0
empty_stack none e = cc
empty_stack (some n) e = ap some (ground arith)

module _ {T : Type 0} (f : Formula) (w : WireFormat T) (sized : IsSized f w) where
  pub ref-IsSized : IsSized (ref_formula f) (ref_wire f w)
  ref-IsSized = record {
    bounded = λ v m val e. omega (arith, some_inj e);
    exact = λ v val e. refl;
    flat = λ v val e. absurd (omega (arith, some_inj e, reference_size_pos f));
    heap_free = λ v val e.
        let nothing : f.max_stack_size ≡ some 0 = empty_stack f.max_stack_size e in
        omega (arith, sized.flat v val nothing, sized.bounded v 0 val nothing);
  }

  module _ (s : Serialize T) (writer : IsWriter s w) where
    ref_serialize-Ensures :
        (v : T) (k : Frame) (b : Buffer) (z : Sizes) (H S : Bytes)
        → w.IsValue v
        → Holds k b z H S
        → Ensures k
            (total z + ((w.heap_len v + w.stack_len v) + reference_size f))
            (Written (ref_wire f w) v z H S k)
            (ref_serialize f s v z b)
    unfolding ref_serialize
    ref_serialize-Ensures v k b z H S val h =
        Ensures-bind k (write_ref f s v z b) _ (omega arith)
          (write_ref-Ensures f s w writer sized v k b z H S val h)
          (λ (size, z', b1) (hv, sv, q, esz, eh, es, h1) fits room.
            let (lh, ls) = w.lengths v (length H) hv sv q in
            let end : z'.heap ≡ length H + length (hv ++ sv) =
              omega (arith, h.heap, length-append hv sv) in
            let small : z'.heap < usize_limit = omega (arith, room.small) in
            let sizes : size < usize_limit = omega (arith, room.small) in
            (Ensures-bind k (write_reference f size z'.heap z'.heap z'.stack b1) _ (omega arith)
                (write_reference-Ensures f size z'.heap h1
                  (λ x. sized.exact v val x ∙ ap some (sym (esz ∙ ls))) (reference_size f)
                  (length-reference f size z'.heap
                    ∙ length-reference_bytes f.exact_size size z'.heap)
                  sizes small)
                (λ b2 h2 fits2 room2. (
                  Fits-mono k (omega arith) fits2,
                  (
                    hv ++ sv,
                    reference_bytes f.exact_size size z'.heap,
                    (
                      hv,
                      sv,
                      q,
                      refl,
                      ap (λ n. reference_bytes f.exact_size n z'.heap) esz
                          ∙ ap (reference_bytes f.exact_size (length sv)) end,
                      omega arith,
                    ),
                    omega (arith, length-append hv sv),
                    ap (λ n. n + reference_size f) es
                        ∙ ap (λ n. z.stack + n) (length-reference f size z'.heap),
                    h2,
                  ),
                ))).post
              room)

    pub ref-IsWriter :
        IsWriter
          (record { serialize = ref_serialize f s; size_hint = ref_size_hint f s })
          (ref_wire f w)
    unfolding ref_size_hint
    ref-IsWriter = record {
      writes = ref_serialize-Ensures;
      hint = λ v z val e.
          hint_steps f.max_stack_size (s.size_hint v) v z val (λ p e'. writer.hint v p val e') e;
    }
      where
        hint_steps :
            (m : Option ℕ) (o : Option Sizes) (v : T) (z : Sizes)
            → w.IsValue v
            → ((p : Sizes) → o ≡ some p → (p.heap ≡ w.heap_len v) × (p.stack ≡ w.stack_len v))
            → ref_hint f (hint_of_field m true o) ≡ some z
            → (z.heap ≡ w.heap_len v + w.stack_len v) × (z.stack ≡ reference_size f)
        hint_steps none none v z val p e = absurd (cc e)
        hint_steps (some m) none v z val p e = absurd (cc e)
        hint_steps none (some y) v z val p e = ground (arith, p y refl)
        hint_steps (some m) (some y) v z val p e = ground (arith, p y refl)

  module _ (d : Deserialize T) (reader : IsReader f d w) where
    pub ref-IsReader :
        IsReader (ref_formula f) (record { deserialize = ref_deserialize f d }) (ref_wire f w)
    unfolding ref_deserialize
    ref-IsReader = record {
      reads = λ v front hb mid sb pre k val (hv, sv, q, eh, es, lt) ep hk h0.
          let (lh, ls) = w.lengths v (length front) hv sv q in
          let target : Bytes = (front ++ hv) ++ sv in
          let split : pre ≡ target ++ mid =
            ep
            ∙ ap (λ t. front ++ (t ++ mid)) eh
            ∙ sym (append_assoc front (hv ++ sv) mid)
            ∙ ap (λ t. t ++ mid) (sym (append_assoc front hv sv)) in
          let address : ℕ = length front + length hb in
          let ea : address ≡ length target = omega (
            arith,
            ap length eh,
            length-append hv sv,
            length-append (front ++ hv) sv,
            length-append front hv,
          ) in
          let followed : deref f (at_end pre sb k)
              ≡ ok (record { input = target; stack = length sv }) =
            ap (λ t. deref f (at_end t sb k)) split
            ∙ ap (λ t. deref f (at_end (target ++ mid) t k)) es
            ∙ deref_lem f (length sv) address (omega (arith, lt, ap length eh, length-append hv sv))
                lt (λ x. sized.exact v val x ∙ ap some (sym ls)) target mid k ea
                (omega (arith, length-append (front ++ hv) sv)) in
          rw followed (
            ap (λ n. d.deserialize (record { input = target; stack = n })) (omega arith)
            ∙ reader.reads v front hv [] sv (front ++ hv) 0 val q
                (ap (λ t. front ++ t) (sym (append-nil hv))) (omega arith) (λ _. refl));
    }

-- If a formula's implementations keep the contract `IsCodec` with a wire format, then those of
-- `Ref` of that formula keep it with the format in which the value stands on the heap and its
-- address and size on the stack.
pub ref-IsCodec :
    {T : Type 0} (c : Codec T) (w : WireFormat T)
    → IsCodec c w
    → IsCodec (ref c) (ref_wire c.formula w)
ref-IsCodec c w laws = record {
  sized = ref-IsSized c.formula w laws.sized;
  writer = ref-IsWriter c.formula w laws.sized c.ser laws.writer;
  reader = ref-IsReader c.formula w laws.sized c.de laws.reader;
}
