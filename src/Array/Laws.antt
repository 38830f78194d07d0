-- ===== src/Array/Laws.antt =====
-- The image of an array, and the implementations of src/array.rs.
use alkahest.Prelude.{
  ℕ, zero, suc, ◌+◌, ◌*◌, ◌≡◌, ◌≢◌, refl, sym, ap, subst, ◌∙◌, ◌++◌, [], ◌∷◌, List, Bool, true,
  false, Option, none, some, length, arith, some_inj, inl, inr, length-append, Option-cases,
}
use native.Mathlib.Nat.{mul_comm}
use alkahest.Prelude.Words.{Bytes}
use alkahest.Outcome.{ok}
use alkahest.Formula.{Formula, repeat_size}
use alkahest.Sizes.{Sizes}
use alkahest.Serialize.Wire.{WireFormat}
use alkahest.Deserialize.Reads.{at_end, peel}
use alkahest.Deserialize.Fields.{read_value-field}
use alkahest.Codec.{Codec, IsCodec}
use alkahest.Slice.Laws.{elements_wire, elements_heap, elements_stack, write_array-Ensures}
use alkahest.Slice.Contract.{few, no_heap, all_padded, iter_fast_sizes_lem}
use alkahest.Slice.{iter_fast_sizes}
use alkahest.Array.{array, array_fast_sizes, array_deserialize}

-- The image of the elements of a list of the length.
abbrev pub array_wire : {T : Type 0} → ℕ → Formula → WireFormat T → WireFormat (List T)
array_wire n f w = record {
  IsValue = λ vs. (length vs ≡ n) × (elements_wire f w).IsValue vs;
  heap_len = (elements_wire f w).heap_len;
  stack_len = (elements_wire f w).stack_len;
  Wire = (elements_wire f w).Wire;
  lengths = (elements_wire f w).lengths;
}

-- The maximum of an array is that of an element, for each.
repeated :
    (m : Option ℕ) (n r : ℕ) → repeat_size m n ≡ some r → (a : ℕ) × (m ≡ some a) × (r ≡ a * n)
repeated none n r e = absurd (cc e)
repeated (some a) n r e = (a, refl, sym (some_inj e))

module _ {T : Type 0} (n : ℕ) (c : Codec T) (w : WireFormat T) (laws : IsCodec c w) where
  array_stack :
      (vs : List T) (a : ℕ)
      → length vs ≡ n
      → c.formula.max_stack_size ≡ some a
      → elements_stack c.formula w vs ≡ a * n
  array_stack vs a len e = all_padded c w laws a vs e ∙ ap (λ t. t * a) len ∙ mul_comm n a

  flat_elements :
      (vs : List T)
      → (elements_wire c.formula w).IsValue vs
      → c.formula.max_stack_size ≡ some 0
      → elements_heap c.formula w vs ≡ 0
  flat_elements [] val e = refl
  flat_elements (v ∷ vs) (val, vals) e =
      omega (arith, laws.sized.flat v val e, flat_elements vs vals e)

  array_flat :
      (vs : List T) (a : ℕ)
      → length vs ≡ n
      → (elements_wire c.formula w).IsValue vs
      → c.formula.max_stack_size ≡ some a
      → a * n ≡ 0
      → elements_heap c.formula w vs ≡ 0
  array_flat [] a len val e z = refl
  array_flat (v ∷ vs) zero len val e z = flat_elements (v ∷ vs) val e
  array_flat (v ∷ vs) (suc a) len val e z = absurd (grind (arith, len, z))

  array_hint :
      (x : Bool) (m : Option ℕ) (vs : List T) (y : Sizes)
      → c.formula.heapless ≡ x
      → c.formula.max_stack_size ≡ m
      → (elements_wire c.formula w).IsValue vs
      → array_fast_sizes c.formula x m c.ser vs ≡ some y
      → (y.heap ≡ elements_heap c.formula w vs) × (y.stack ≡ elements_stack c.formula w vs)
  unfolding array_fast_sizes iter_fast_sizes
  array_hint true (some zero) vs y ex em val e =
      ground (arith, e, flat_elements vs val em, all_padded c w laws 0 vs em)
  array_hint true (some (suc m)) vs y ex em val e =
      iter_fast_sizes_lem c w laws true (some (suc m)) vs y ex em (λ z. cc z) val e
  array_hint true none vs y ex em val e =
      iter_fast_sizes_lem c w laws true none vs y ex em (λ z. cc z) val e
  array_hint false m vs y ex em val e = few c w laws vs y val e

  array_reads :
      (i : ℕ) (vs : List T) (front hb mid sb pre : Bytes) (k : ℕ)
      → length vs ≡ i
      → (elements_wire c.formula w).IsValue vs
      → (elements_wire c.formula w).Wire vs (length front) hb sb
      → pre ≡ front ++ (hb ++ mid)
      → array_deserialize c.formula c.de i (at_end pre sb k) ≡ ok vs
  unfolding array_deserialize
  array_reads zero [] front hb mid sb pre k len val q e = refl
  array_reads zero (v ∷ vs) front hb mid sb pre k len val q e = absurd (omega arith)
  array_reads (suc i) [] front hb mid sb pre k len val q e = absurd (omega arith)
  array_reads (suc i) (v ∷ vs) front hb mid sb pre k len (val, vals) (ha, sa, hr, sr, q, qr, eh, es)
        e =
      let (regroup, first, second) = peel front ha hr mid sa sr hb sb pre k eh es e in
      ap (array_deserialize c.formula c.de (suc i)) regroup
      ∙ rw (
        read_value-field c.formula c.de w laws.reader v front ha ((hr ++ mid) ++ sr) sa (pre ++ sr)
            (k + length sr) val q.1 first,
        array_reads i vs (front ++ ha) hr mid sr pre k (omega arith) vals
            (subst (λ n. (elements_wire c.formula w).Wire vs n hr sr) (sym (length-append front ha))
              qr)
            second,
      )

  -- If the implementations of a formula keep the contract `IsCodec`, and the formula has a
  -- maximum if it is exact, then those of the arrays of a length of it keep it for the lists of
  -- that length, the size hints included.
  pub array-IsCodec :
      (c.formula.exact_size ≡ true → c.formula.max_stack_size ≢ none)
      → IsCodec (array n c) (array_wire n c.formula w)
  array-IsCodec sure = record {
    sized = record {
      bounded = λ vs m (len, val) e.
          let (a, ea, er) = repeated c.formula.max_stack_size n m e in
          omega (arith, array_stack vs a len ea);
      exact = λ vs (len, val) e. exact_size vs len (sure e);
      flat = λ vs (len, val) e.
          let (a, ea, er) = repeated c.formula.max_stack_size n 0 e in
          array_flat vs a len val ea (sym er);
      heap_free = λ vs (len, val) e. no_heap c w laws vs val e;
    };
    writer = record {
      writes = λ vs k b z H S (len, val) h. write_array-Ensures c w laws vs k b z H S val h;
      hint = λ vs y (len, val) e.
          array_hint c.formula.heapless c.formula.max_stack_size vs y refl refl val e;
    };
    reader = record {
      reads = λ vs front hb mid sb pre k (len, val) q e hk h0.
          array_reads n vs front hb mid sb pre k len val q e;
    };
  }
    where
      exact_size :
          (vs : List T)
          → length vs ≡ n
          → c.formula.max_stack_size ≢ none
          → repeat_size c.formula.max_stack_size n ≡ some (elements_stack c.formula w vs)
      exact_size vs len some_max = elim (Option-cases c.formula.max_stack_size) [
        | inl e ↦ absurd (some_max e)
        | inr (a, e) ↦ ap (λ m. repeat_size m n) e ∙ ap some (sym (array_stack vs a len e))
      ]
