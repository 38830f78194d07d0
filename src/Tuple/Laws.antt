-- ===== src/Tuple/Laws.antt =====
-- The image of a tuple, and the implementations of src/tuple.rs.
use alkahest.Prelude.{
  ℕ, ◌+◌, ◌≡◌, refl, sym, ap, subst, ◌∙◌, ◌++◌, Bool, true, false, ◌&&◌, Option, none, some, length,
  arith, length-append, append_assoc, some_inj, [], append-nil,
}
use alkahest.Prelude.Words.{Bytes}
use alkahest.Formula.{Formula, sum_size}
use alkahest.Sizes.{Sizes, total}
use alkahest.Buffer.{Buffer}
use alkahest.Buffer.Holds.{
  Frame, Holds, Holds-eq, Holds-Fits, Fits, Ensures, Ensures-bind, Ensures-map,
}
use alkahest.Serialize.{write_field, hint_of_field, field_size_hint}
use alkahest.Serialize.Wire.{WireFormat, Written, IsSized}
use alkahest.Serialize.Wire.Field.{FieldWire, field_len, field, write_field-Ensures}
use alkahest.Deserialize.Reads.{IsReader, peel}
use alkahest.Deserialize.Fields.{read_value-field, read_value-last}
use alkahest.Codec.{Codec, IsCodec}
use alkahest.Primitive.Laws.{flat_wire}
use alkahest.Tuple.{
  cons_formula, add_hint, prefix_size, cons_hint, last_serialize, last_hint, last_deserialize,
  cons_serialize, cons_size_hint, cons_deserialize, tuple_last, tuple_cons, empty,
}

pub last_len : (m : Option ℕ) (n : ℕ) → field_len m true n ≡ n
last_len none n = refl
last_len (some m) n = refl

pub last_sum : (m : Option ℕ) → sum_size (some 0) m ≡ m
last_sum none = refl
last_sum (some m) = ap some (omega arith)

-- The image of a field that is the last is the image of its value.
pub last_image : (m : Option ℕ) (W : Bytes → Type 0) (sb : Bytes) → FieldWire m true W sb → W sb
last_image none W sb q = q
last_image (some m) W sb q = q

module _ {A : Type 0} (c : Codec A) (w : WireFormat A) (laws : IsCodec c w) where
  pub tuple_last-IsCodec : IsCodec (tuple_last c) (field c.formula true w)
  unfolding last_serialize last_hint last_deserialize field_size_hint
  tuple_last-IsCodec = record {
    sized = record {
      bounded = λ v m val e. omega (
        arith,
        last_len c.formula.max_stack_size (w.stack_len v),
        laws.sized.bounded v m val (sym (last_sum c.formula.max_stack_size) ∙ e),
      );
      exact = λ v val e.
          last_sum c.formula.max_stack_size
          ∙ laws.sized.exact v val e
          ∙ ap some (sym (last_len c.formula.max_stack_size (w.stack_len v)));
      flat = λ v val e. laws.sized.flat v val (sym (last_sum c.formula.max_stack_size) ∙ e);
      heap_free = laws.sized.heap_free;
    };
    writer = record {
      writes = λ v k b z H S val h.
          write_field-Ensures c.ser w laws.writer c.formula true v k b z H S laws.sized val h;
      hint = λ v z val e.
          hints c.formula.max_stack_size (c.ser.size_hint v) v z
            (λ y e'. laws.writer.hint v y val e') e;
    };
    reader = record {
      reads = λ v front hb mid sb pre k val q e hk h0.
          let (de, r) =
            read_value-last c.formula c.de w laws.reader v front hb mid sb pre k laws.sized val
              (last_image c.formula.max_stack_size (w.Wire v (length front) hb) sb q.1) e hk
              (λ n. h0 (last_sum c.formula.max_stack_size ∙ n)) in
          rw r;
    };
  }
    where
      hints :
          (m : Option ℕ) (o : Option Sizes) (v : A) (z : Sizes)
          → ((y : Sizes) → o ≡ some y → (y.heap ≡ w.heap_len v) × (y.stack ≡ w.stack_len v))
          → add_hint (record { heap = 0; stack = 0 }) (hint_of_field m true o) ≡ some z
          → (z.heap ≡ w.heap_len v) × (z.stack ≡ field_len m true (w.stack_len v))
      hints none none v z p e = absurd (cc e)
      hints (some m) none v z p e = absurd (cc e)
      hints none (some y) v z p e = ground (arith, p y refl)
      hints (some m) (some y) v z p e = ground (arith, p y refl)

-- The first field stands behind the others on the stack, and before them on the heap.
abbrev pub cons_wire : {A R : Type 0} → Formula → WireFormat A → WireFormat R → WireFormat (A × R)
cons_wire f wa wr = record {
  IsValue = λ (v, r). wa.IsValue v × wr.IsValue r;
  heap_len = λ (v, r). wa.heap_len v + wr.heap_len r;
  stack_len = λ (v, r). field_len f.max_stack_size false (wa.stack_len v) + wr.stack_len r;
  Wire = λ (v, r) a hb sb.
      (ha : Bytes) × (sa : Bytes) × (hr : Bytes) × (sr : Bytes) × (field f false wa).Wire v a ha sa
      × wr.Wire r (a + length ha) hr sr
      × (hb ≡ ha ++ hr)
      × (sb ≡ sr ++ sa);
  lengths = λ (v, r) a hb sb (ha, sa, hr, sr, q, qr, eh, es).
      let (lh, ls) = (field f false wa).lengths v a ha sa q in
      let (lh', ls') = wr.lengths r (a + length ha) hr sr qr in
      (
        omega (arith, ap length eh, length-append ha hr),
        omega (arith, ap length es, length-append sr sa),
      );
}

pub and_left : (a b : Bool) → a && b ≡ true → a ≡ true
and_left true b e = refl
and_left false b e = absurd (cc e)

pub and_right : (a b : Bool) → a && b ≡ true → b ≡ true
and_right true b e = e
and_right false b e = absurd (cc e)

pub sum_parts :
    (a b : Option ℕ) (m : ℕ)
    → sum_size a b ≡ some m
    → (x : ℕ) × (y : ℕ) × (a ≡ some x) × (b ≡ some y) × (x + y ≡ m)
sum_parts none b m e = absurd (cc e)
sum_parts (some x) none m e = absurd (cc e)
sum_parts (some x) (some y) m e = (x, y, refl, refl, some_inj e)

pub sum_none : (a b : Option ℕ) → b ≡ none → sum_size a b ≡ none
sum_none none b e = refl
sum_none (some x) b e = ap (sum_size (some x)) e

module _ {A R : Type 0} (c : Codec A) (wa : WireFormat A) (la : IsCodec c wa) (rest : Codec R)
    (wr : WireFormat R) (lr : IsCodec rest wr) where
  len_of :
      (x n : ℕ) → c.formula.max_stack_size ≡ some x → field_len c.formula.max_stack_size false n ≡ x
  len_of x n e = ap (λ m. field_len m false n) e

  cons-IsSized : IsSized (cons_formula c.formula rest.formula) (cons_wire c.formula wa wr)
  cons-IsSized = record {
    bounded = λ (v, r) m (val, valr) e.
        let (x, y, ex, ey, exy) =
          sum_parts c.formula.max_stack_size rest.formula.max_stack_size m e in
        omega (arith, len_of x (wa.stack_len v) ex, lr.sized.bounded r y valr ey);
    exact = λ (v, r) (val, valr) e.
        let xa = la.sized.exact v val (and_left c.formula.exact_size rest.formula.exact_size e) in
        let xr = lr.sized.exact r valr (and_right c.formula.exact_size rest.formula.exact_size e) in
        ap (λ t. sum_size t rest.formula.max_stack_size) xa
        ∙ ap (sum_size (some (wa.stack_len v))) xr
        ∙ ap (λ n. some (n + wr.stack_len r)) (sym (len_of (wa.stack_len v) (wa.stack_len v) xa));
    flat = λ (v, r) (val, valr) e.
        let (x, y, ex, ey, exy) =
          sum_parts c.formula.max_stack_size rest.formula.max_stack_size 0 e in
        let x0 : x ≡ 0 = omega arith in
        let y0 : y ≡ 0 = omega arith in
        omega
          (arith, la.sized.flat v val (ex ∙ ap some x0), lr.sized.flat r valr (ey ∙ ap some y0));
    heap_free = λ (v, r) (val, valr) e. omega (
      arith,
      la.sized.heap_free v val (and_left c.formula.heapless rest.formula.heapless e),
      lr.sized.heap_free r valr (and_right c.formula.heapless rest.formula.heapless e),
    );
  }

  cons-writes :
      (v : A) (r : R) (k : Frame) (b : Buffer) (z : Sizes) (H S : Bytes)
      → wa.IsValue v
      → wr.IsValue r
      → Holds k b z H S
      → Ensures k
          (total z
            + ((wa.heap_len v + wr.heap_len r)
                + (field_len c.formula.max_stack_size false (wa.stack_len v) + wr.stack_len r)))
          (Written (cons_wire c.formula wa wr) (v, r) z H S k)
          (cons_serialize c.formula c.ser rest.ser (v, r) z b)
  unfolding cons_serialize
  cons-writes v r k b z H S val valr h =
      Ensures-bind k (write_field c.formula c.ser v z b false) _ (omega arith)
        (write_field-Ensures c.ser wa la.writer c.formula false v k b z H S la.sized val h)
        (λ (z1, b1) (ha, sa, q, eh, es, h1) fits room.
          let (lh, ls) = (field c.formula false wa).lengths v (length H) ha sa q in
          (Ensures-map (lr.writer.writes r k b1 z1 (H ++ ha) (sa ++ S) valr h1) (omega arith)
              (λ (z2, b2) (hr, sr, qr, eh', es', h2). (
                ha ++ hr,
                sr ++ sa,
                (
                  ha,
                  sa,
                  hr,
                  sr,
                  q,
                  subst (λ n. wr.Wire r n hr sr) (length-append H ha) qr,
                  refl,
                  refl,
                ),
                omega (arith, length-append ha hr),
                omega (arith, length-append sr sa),
                Holds-eq h2 refl refl (append_assoc H ha hr) (sym (append_assoc sr sa S)),
              ))).post
            room)

  cons-hint :
      (m : Option ℕ) (o o' : Option Sizes) (v : A) (r : R) (z : Sizes)
      → ((y : Sizes) → o ≡ some y → (y.heap ≡ wa.heap_len v) × (y.stack ≡ wa.stack_len v))
      → ((y : Sizes) → o' ≡ some y → (y.heap ≡ wr.heap_len r) × (y.stack ≡ wr.stack_len r))
      → cons_hint (add_hint (prefix_size m) (hint_of_field m false o)) o' ≡ some z
      → (z.heap ≡ wa.heap_len v + wr.heap_len r)
        × (z.stack ≡ field_len m false (wa.stack_len v) + wr.stack_len r)
  unfolding hint_of_field
  cons-hint none none o' v r z p p' e = absurd (cc e)
  cons-hint none (some y) o' v r z p p' e = absurd (cc e)
  cons-hint (some m) none o' v r z p p' e = absurd (cc e)
  cons-hint (some m) (some y) none v r z p p' e = absurd (cc e)
  cons-hint (some m) (some y) (some y') v r z p p' e = ground (arith, p y refl, p' y' refl)

  cons-reads :
      IsReader
        (cons_formula c.formula rest.formula)
        (record { deserialize = cons_deserialize c.formula c.de rest.de })
        (cons_wire c.formula wa wr)
  unfolding cons_deserialize
  cons-reads = record {
    reads = λ (v, r) front hb mid sb pre k (val, valr) (ha, sa, hr, sr, q, qr, eh, es) e hk h0.
        let (regroup, first, second) = peel front ha hr mid sa sr hb sb pre k eh es e in
        ap (cons_deserialize c.formula c.de rest.de) regroup
        ∙ rw (
          read_value-field c.formula c.de wa la.reader v front ha ((hr ++ mid) ++ sr) sa (pre ++ sr)
              (k + length sr) val q.1 first,
          lr.reader.reads r (front ++ ha) hr mid sr pre k valr
              (subst (λ n. wr.Wire r n hr sr) (sym (length-append front ha)) qr) second hk
              (λ n. h0 (sum_none c.formula.max_stack_size rest.formula.max_stack_size n)),
        );
  }

  -- If the implementations of a field and of a tuple keep the contract `IsCodec`, then those of
  -- the tuple with the field in front keep it.
  pub tuple_cons-IsCodec : IsCodec (tuple_cons c rest) (cons_wire c.formula wa wr)
  unfolding cons_size_hint field_size_hint
  tuple_cons-IsCodec = record {
    sized = cons-IsSized;
    writer = record {
      writes = λ (v, r) k b z H S (val, valr) h. cons-writes v r k b z H S val valr h;
      hint = λ (v, r) z (val, valr) e.
          cons-hint c.formula.max_stack_size (c.ser.size_hint v) (rest.ser.size_hint r) v r z
            (λ y e'. la.writer.hint v y val e') (λ y e'. lr.writer.hint r y valr e') e;
    };
    reader = cons-reads;
  }

abbrev pub empty_wire : WireFormat Unit
empty_wire = flat_wire (λ v. Unit) (λ v. [])

pub empty-IsCodec : IsCodec empty empty_wire
empty-IsCodec = record {
  sized = record {
    bounded = λ v m val e. omega arith;
    exact = λ v val e. refl;
    flat = λ v val e. refl;
    heap_free = λ v val e. refl;
  };
  writer = record {
    writes = λ v k b z H S val h. record {
      post = λ room. (
        subst (λ n. Fits k n) (omega arith) (Holds-Fits h),
        (
          [],
          [],
          (refl, refl),
          omega arith,
          omega arith,
          Holds-eq h refl refl (sym (append-nil H)) refl,
        ),
      );
    };
    hint = λ v z val e. (cc e, cc e);
  };
  reader = record { reads = λ v front hb mid sb pre k val q e hk h0. refl };
}
