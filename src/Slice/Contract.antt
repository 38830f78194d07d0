-- ===== src/Slice/Contract.antt =====
-- The hints of src/iter.rs, and the contract of `[F]`.
use alkahest.Prelude.{
  ℕ, zero, suc, ◌+◌, ◌*◌, ◌≡◌, ◌≢◌, refl, sym, ap, ◌∙◌, ◌++◌, [], ◌∷◌, List, Bool, true, false,
  Option, none, some, length, arith, leb, if◌then◌else◌, Bool-cases, inl, inr,
}
use native.Mathlib.Nat.{suc-mul}
use alkahest.Sizes.{Sizes, sizes_zero}
use alkahest.Buffer.{Buffer}
use alkahest.Serialize.{hint_of_field, field_size_hint}
use alkahest.Serialize.Wire.{WireFormat}
use alkahest.Serialize.Wire.Field.{field_len}
use alkahest.Codec.{Codec, IsCodec}
use alkahest.Tuple.{add_hint}
use alkahest.Slice.{
  slice, write_array, slice_max, write_slice, write_slice_at, iter_fast_sizes, sum_hints, and_then,
  slice_deserialize,
}
use alkahest.Slice.Laws.{
  elements_wire, elements_heap, elements_stack, write_array-Ensures, slice_reads,
}

unsized : (m : Option ℕ) → m ≢ some 0 → slice_max m ≡ none
unsized none h = refl
unsized (some zero) h = absurd (h refl)
unsized (some (suc m)) h = refl

module _ {T : Type 0} (c : Codec T) (w : WireFormat T) (laws : IsCodec c w) where
  pub no_heap :
      (vs : List T)
      → (elements_wire c.formula w).IsValue vs
      → c.formula.heapless ≡ true
      → elements_heap c.formula w vs ≡ 0
  no_heap [] val e = refl
  no_heap (v ∷ vs) (val, vals) e = omega (arith, laws.sized.heap_free v val e, no_heap vs vals e)

  pub all_padded :
      (m : ℕ) (vs : List T)
      → c.formula.max_stack_size ≡ some m
      → elements_stack c.formula w vs ≡ length vs * m
  all_padded m [] e = omega arith
  all_padded m (v ∷ vs) e = omega (
    arith,
    ap (λ t. field_len t false (w.stack_len v)) e,
    all_padded m vs e,
    suc-mul (length vs) m,
  )

  -- The sum of the hints.
  sum_hints_lem :
      (vs : List T) (z y : Sizes)
      → (elements_wire c.formula w).IsValue vs
      → sum_hints c.formula c.ser z vs ≡ some y
      → (y.heap ≡ z.heap + elements_heap c.formula w vs)
        × (y.stack ≡ z.stack + elements_stack c.formula w vs)
  unfolding sum_hints field_size_hint
  sum_hints_lem [] z y val e = ground (arith, e)
  sum_hints_lem (v ∷ vs) z y (val, vals) e =
      steps c.formula.max_stack_size (c.ser.size_hint v) refl (λ p e'. laws.writer.hint v p val e')
        (λ z' e'. sum_hints_lem vs z' y vals e') e
    where
      steps :
          (m : Option ℕ) (o : Option Sizes)
          → c.formula.max_stack_size ≡ m
          → ((p : Sizes) → o ≡ some p → (p.heap ≡ w.heap_len v) × (p.stack ≡ w.stack_len v))
          → ((z' : Sizes)
              → sum_hints c.formula c.ser z' vs ≡ some y
              → (y.heap ≡ z'.heap + elements_heap c.formula w vs)
                × (y.stack ≡ z'.stack + elements_stack c.formula w vs))
          → and_then (add_hint z (hint_of_field m false o)) (λ x. sum_hints c.formula c.ser x vs)
            ≡ some y
          → (y.heap ≡ z.heap + (w.heap_len v + elements_heap c.formula w vs))
            × (y.stack
                ≡ z.stack
                  + (field_len c.formula.max_stack_size false (w.stack_len v)
                      + elements_stack c.formula w vs))
      steps none none em p ih e = absurd (cc e)
      steps none (some x) em p ih e = absurd (cc e)
      steps (some m) none em p ih e = absurd (cc e)
      steps (some m) (some x) em p ih e =
          let (ph, ps) = p x refl in
          let (lh, ls) = ih (record { heap = z.heap + x.heap; stack = z.stack + m }) e in
          (omega arith, omega (arith, ap (λ t. field_len t false (w.stack_len v)) em))

  -- At most `ITER_UPPER` elements.
  pub few :
      (vs : List T) (y : Sizes)
      → (elements_wire c.formula w).IsValue vs
      → (if leb (length vs) 4 then sum_hints c.formula c.ser sizes_zero vs else none) ≡ some y
      → (y.heap ≡ elements_heap c.formula w vs) × (y.stack ≡ elements_stack c.formula w vs)
  few vs y val e = elim (Bool-cases (leb (length vs) 4)) [
    | inl t ↦
        let (lh, ls) =
          sum_hints_lem vs sizes_zero y val
            (sym (ap (λ b. if b then sum_hints c.formula c.ser sizes_zero vs else none) t) ∙ e) in
        (omega arith, omega arith)
    | inr t ↦ absurd (cc (e, t))
  ]

  pub iter_fast_sizes_lem :
      (x : Bool) (m : Option ℕ) (vs : List T) (y : Sizes)
      → c.formula.heapless ≡ x
      → c.formula.max_stack_size ≡ m
      → m ≢ some 0
      → (elements_wire c.formula w).IsValue vs
      → iter_fast_sizes c.formula x m c.ser vs ≡ some y
      → (y.heap ≡ elements_heap c.formula w vs) × (y.stack ≡ elements_stack c.formula w vs)
  unfolding iter_fast_sizes
  iter_fast_sizes_lem true (some zero) vs y ex em h val e = absurd (h refl)
  iter_fast_sizes_lem true (some (suc m)) vs y ex em h val e =
      ground (arith, e, no_heap vs val ex, all_padded (suc m) vs em)
  iter_fast_sizes_lem true none vs y ex em h val e = few vs y val e
  iter_fast_sizes_lem false m vs y ex em h val e = few vs y val e

  one_by_one :
      (m : Option ℕ) (vs : List T) (z : Sizes) (b : Buffer)
      → m ≢ some 0
      → write_slice_at c.formula m c.ser vs z b ≡ write_array c.formula c.ser vs z b
  unfolding write_slice_at
  one_by_one none vs z b h = refl
  one_by_one (some zero) vs z b h = absurd (h refl)
  one_by_one (some (suc m)) vs z b h = refl

  -- If the implementations of a formula whose maximum is not 0 keep the contract `IsCodec`,
  -- then those of the slice of it keep it, the size hints included.
  pub slice-IsCodec :
      c.formula.max_stack_size ≢ some 0 → IsCodec (slice c) (elements_wire c.formula w)
  unfolding write_slice
  slice-IsCodec nonzero =
      let no_max : slice_max c.formula.max_stack_size ≡ none =
        unsized c.formula.max_stack_size nonzero in
      record {
        sized = record {
          bounded = λ vs m val e. absurd (cc (no_max, e));
          exact = λ vs val e. absurd (cc e);
          flat = λ vs val e. absurd (cc (no_max, e));
          heap_free = λ vs val e. no_heap vs val e;
        };
        writer = record {
          writes = λ vs k b z H S val h.
              rw (one_by_one c.formula.max_stack_size vs z b nonzero)
                (write_array-Ensures c w laws vs k b z H S val h);
          hint = λ vs y val e.
              iter_fast_sizes_lem c.formula.heapless c.formula.max_stack_size vs y refl refl nonzero
                val e;
        };
        reader = record {
          reads = λ vs front hb mid sb pre k val q e hk h0.
              ap
                (λ n.
                  slice_deserialize c.formula c.de
                    (record { input = pre ++ sb; stack = n + length sb }))
                (h0 no_max)
              ∙ slice_reads c w laws nonzero vs front hb mid sb pre val q e;
        };
      }
