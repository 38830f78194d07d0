-- ===== src/InPlace/Formulas.antt =====
-- `deserialize_in_place` of src/tuple.rs, src/option.rs, src/reference.rs and src/array.rs on the image
-- of a value.
use alkahest.Prelude.{
  ℕ, ◌+◌, ◌≤◌, ◌≡◌, refl, sym, ap, subst, ◌∙◌, ◌++◌, [], ◌∷◌, List, true, false, Option, none, some,
  length, arith, append_assoc, length-append,
}
use alkahest.Prelude.Words.{Bytes}
use alkahest.Outcome.{ok, ◌>>=◌}
use alkahest.Formula.{sum_size}
use alkahest.Serialize.Wire.{WireFormat}
use alkahest.Serialize.Wire.Field.{field}
use alkahest.Deserialize.Reads.{at_end, peel}
use alkahest.Deserialize.Fields.{read_value-field, read_value-last}
use alkahest.Codec.{Codec, IsCodec}
use alkahest.Primitive.Laws.{read_byte-at_end}
use alkahest.Tuple.{last_formula, cons_formula, cons_deserialize}
use alkahest.Tuple.Laws.{last_image, last_sum, cons_wire, tuple_cons-IsCodec}
use alkahest.Optional.{option_formula}
use alkahest.Optional.Laws.{option_wire, option_unsized}
use alkahest.Reference.{ref_formula, ref_deserialize}
use alkahest.Reference.Laws.{ref_wire, ref-IsReader}
use alkahest.Slice.Laws.{elements_wire}
use alkahest.Array.{array_formula}
use alkahest.Array.Laws.{array_wire}
use alkahest.InPlace.{
  InPlace, overwrite, last_in_place, ref_in_place, cons_in_place, some_in_place, option_in_place,
  array_in_place,
}
use alkahest.InPlace.Laws.{at_place, IsPlacer, read_in_place-field, read_in_place-last}

pub overwrite-IsPlacer :
    {T : Type 0} (c : Codec T) (w : WireFormat T)
    → IsCodec c w
    → IsPlacer c.formula (overwrite c.de) w
overwrite-IsPlacer c w laws place val = record { reads = laws.reader.reads }

module _ {T : Type 0} (c : Codec T) (w : WireFormat T) (laws : IsCodec c w) (p : InPlace T)
    (placer : IsPlacer c.formula p w) where
  pub last-IsPlacer :
      IsPlacer
        (last_formula c.formula)
        (record { in_place = last_in_place c.formula p })
        (field c.formula true w)
  unfolding last_in_place
  last-IsPlacer place here = record {
    reads = λ v front hb mid sb pre k val q e hk h0.
        let (de, r) =
          read_in_place-last c.formula p w place (placer place here) v front hb mid sb pre k val
            (last_image c.formula.max_stack_size (w.Wire v (length front) hb) sb q.1) e hk
            (λ n. h0 (last_sum c.formula.max_stack_size ∙ n)) in
        rw r;
  }

  -- The codec whose reader updates the place.
  abbrev placed : T → Codec T
  placed place = record c { de = at_place p place }

  placed-IsCodec : (place : T) → w.IsValue place → IsCodec (placed place) w
  placed-IsCodec place here = record {
    sized = laws.sized;
    writer = laws.writer;
    reader = placer place here;
  }

  pub ref-IsPlacer :
      IsPlacer
        (ref_formula c.formula)
        (record { in_place = ref_in_place c.formula p })
        (ref_wire c.formula w)
  unfolding ref_in_place ref_deserialize
  ref-IsPlacer place here = record {
    reads = λ v front hb mid sb pre k val q e hk h0.
        (ref-IsReader c.formula w laws.sized (at_place p place) (placer place here)).reads v front
          hb mid sb pre k val q e hk h0;
  }

  pub cons-IsPlacer :
      {R : Type 0} (rest : Codec R) (wr : WireFormat R)
      → IsCodec rest wr
      → (pr : InPlace R) → IsPlacer rest.formula pr wr
      → IsPlacer
          (cons_formula c.formula rest.formula)
          (record { in_place = cons_in_place c.formula p pr })
          (cons_wire c.formula w wr)
  unfolding cons_in_place cons_deserialize
  cons-IsPlacer rest wr lr pr placer' (place, places) (here, heres) =
      let laws' : IsCodec (record rest { de = at_place pr places }) wr = record {
        sized = lr.sized;
        writer = lr.writer;
        reader = placer' places heres;
      } in
      let whole =
        tuple_cons-IsCodec (placed place) w (placed-IsCodec place here)
          (record rest { de = at_place pr places }) wr laws' in
      record {
        reads = λ v front hb mid sb pre k val q e hk h0.
            ap (λ r. r >>= λ (de', value). pr.in_place places de' >>= λ others. ok (value, others))
              (read_in_place-field c.formula p place (at_end pre sb k))
            ∙ whole.reader.reads v front hb mid sb pre k val q e hk h0;
      }

  option_value :
      (place : Option T) (v : T) (front hb mid sv pre : Bytes) (k : ℕ)
      → (option_wire w).IsValue place
      → w.IsValue v
      → w.Wire v (length front) hb sv
      → pre ≡ front ++ (hb ++ mid)
      → k ≤ length pre
      → (c.formula.max_stack_size ≡ none → k ≡ 0)
      → some_in_place c.formula p c.de false place (at_end pre sv k) ≡ ok (some v)
  unfolding some_in_place
  option_value none v front hb mid sv pre k here val q e hk h0 =
      let (de, r) =
        read_value-last c.formula c.de w laws.reader v front hb mid sv pre k laws.sized val q e hk
          h0 in
      rw r
  option_value (some place) v front hb mid sv pre k here val q e hk h0 =
      let (de, r) =
        read_in_place-last c.formula p w place (placer place here) v front hb mid sv pre k val q e
          hk h0 in
      rw r

  some_none : (place : Option T) (de : _) → some_in_place c.formula p c.de true place de ≡ ok none
  unfolding some_in_place
  some_none none de = refl
  some_none (some place) de = refl

  option_places :
      (place o : Option T) (front hb mid sb pre : Bytes) (k : ℕ)
      → (option_wire w).IsValue place
      → (option_wire w).IsValue o
      → (option_wire w).Wire o (length front) hb sb
      → pre ≡ front ++ (hb ++ mid)
      → k ≤ length pre
      → (sum_size (some 1) c.formula.max_stack_size ≡ none → k ≡ 0)
      → option_in_place c.formula p c.de place (at_end pre sb k) ≡ ok o
  unfolding option_in_place
  option_places place none front hb mid sb pre k here val (eh, es) e hk h0 =
      ap (λ t. option_in_place c.formula p c.de place (at_end pre t k)) es
      ∙ rw (read_byte-at_end pre 0 k, some_none place (at_end pre [] k))
  option_places place (some v) front hb mid sb pre k here val (sv, q, es) e hk h0 =
      let regroup : at_end pre sb k ≡ at_end (pre ++ sv) (1 ∷ []) (k + length sv) =
        rw (es, ← append_assoc pre sv (1 ∷ []))
          (ap (λ n. record { input = (pre ++ sv) ++ (1 ∷ []); stack = n })
            (omega (arith, length-append sv (1 ∷ [])))) in
      ap (option_in_place c.formula p c.de place) regroup
      ∙ rw (
        read_byte-at_end (pre ++ sv) 1 (k + length sv),
        option_value place v front hb mid sv pre k here val q e hk
            (λ n. h0 (option_unsized c.formula.max_stack_size n)),
      )

  pub option-IsPlacer :
      IsPlacer
        (option_formula c.formula)
        (record { in_place = option_in_place c.formula p c.de })
        (option_wire w)
  option-IsPlacer place here = record {
    reads = λ o front hb mid sb pre k val q e hk h0.
        option_places place o front hb mid sb pre k here val q e hk h0;
  }

  array_places :
      (places vs : List T) (front hb mid sb pre : Bytes) (k : ℕ)
      → length places ≡ length vs
      → (elements_wire c.formula w).IsValue places
      → (elements_wire c.formula w).IsValue vs
      → (elements_wire c.formula w).Wire vs (length front) hb sb
      → pre ≡ front ++ (hb ++ mid)
      → array_in_place c.formula p places (at_end pre sb k) ≡ ok vs
  unfolding array_in_place
  array_places [] [] front hb mid sb pre k len here val q e = refl
  array_places [] (v ∷ vs) front hb mid sb pre k len here val q e = absurd (omega arith)
  array_places (x ∷ xs) [] front hb mid sb pre k len here val q e = absurd (omega arith)
  array_places (x ∷ xs) (v ∷ vs) front hb mid sb pre k len (here, heres) (val, vals)
        (ha, sa, hr, sr, q, qr, eh, es) e =
      let (regroup, first, second) = peel front ha hr mid sa sr hb sb pre k eh es e in
      ap (array_in_place c.formula p (x ∷ xs)) regroup
      ∙ rw (
        read_in_place-field c.formula p x (at_end (pre ++ sr) sa (k + length sr)),
        read_value-field c.formula (at_place p x) w (placer x here) v front ha ((hr ++ mid) ++ sr)
            sa (pre ++ sr) (k + length sr) val q.1 first,
        array_places xs vs (front ++ ha) hr mid sr pre k (omega arith) heres vals
            (subst (λ n. (elements_wire c.formula w).Wire vs n hr sr) (sym (length-append front ha))
              qr)
            second,
      )

  pub array-IsPlacer :
      (n : ℕ)
      → IsPlacer
          (array_formula n c.formula)
          (record { in_place = array_in_place c.formula p })
          (array_wire n c.formula w)
  array-IsPlacer n places (len, here) = record {
    reads = λ vs front hb mid sb pre k (len', val) q e hk h0.
        array_places places vs front hb mid sb pre k (len ∙ sym len') here val q e;
  }
