-- ===== src/Derive/Images.antt =====
-- The image of the fields of a struct or of a variant, and what the generated code of
-- proc/src/serialize.rs and proc/src/deserialize.rs does with it.
use alkahest.Prelude.{
  ℕ, ◌+◌, ◌≤◌, ◌≡◌, refl, sym, ap, subst, ◌∙◌, ◌++◌, [], Option, none, some, length, arith,
  length-append, append_assoc, append-nil,
}
use alkahest.Prelude.Words.{Bytes}
use alkahest.Outcome.{ok}
use alkahest.Formula.{sum_size}
use alkahest.Sizes.{Sizes, total}
use alkahest.Buffer.{Buffer}
use alkahest.Buffer.Holds.{
  Frame, Holds, Holds-eq, Holds-Fits, Fits, Ensures, Ensures-bind, Ensures-map,
}
use alkahest.Serialize.{write_field}
use alkahest.Serialize.Wire.{WireFormat, Written}
use alkahest.Serialize.Wire.Field.{field, write_field-Ensures}
use alkahest.Deserialize.Reads.{at_end, peel}
use alkahest.Deserialize.Fields.{read_value-field, read_value-last}
use alkahest.Codec.{Codec, IsCodec}
use alkahest.Tuple.Laws.{last_image, last_sum, sum_none}
use alkahest.Derive.{Fields, nil, cons, Values, is_nil, write_fields, read_fields, fields_max}

-- A wire format for each field, with which its implementations keep the contract.
unfoldable pub Lawful : Fields → Type 1
Lawful nil = Unit
Lawful (cons A c fs) = (w : WireFormat A) × IsCodec c w × Lawful fs

-- The first field stands behind the others on the stack, and before them on the heap.
unfoldable pub fields_wire : (fs : Fields) → Lawful fs → WireFormat (Values fs)
unfolding Values Lawful
fields_wire nil l = record {
  IsValue = λ v. Unit;
  heap_len = λ v. 0;
  stack_len = λ v. 0;
  Wire = λ v a hb sb. (hb ≡ []) × (sb ≡ []);
  lengths = λ v a hb sb q. (ap length q.0, ap length q.1);
}
fields_wire (cons A c fs) (w, law, l) =
    let r = fields_wire fs l in
    let first = field c.formula (is_nil fs) w in
    record {
      IsValue = λ (v, vs). w.IsValue v × r.IsValue vs;
      heap_len = λ (v, vs). w.heap_len v + r.heap_len vs;
      stack_len = λ (v, vs). first.stack_len v + r.stack_len vs;
      Wire = λ (v, vs) a hb sb.
          (ha : Bytes) × (sa : Bytes) × (hr : Bytes) × (sr : Bytes) × first.Wire v a ha sa
          × r.Wire vs (a + length ha) hr sr
          × (hb ≡ ha ++ hr)
          × (sb ≡ sr ++ sa);
      lengths = λ (v, vs) a hb sb (ha, sa, hr, sr, q, qr, eh, es).
          let (lh, ls) = first.lengths v a ha sa q in
          let (lh', ls') = r.lengths vs (a + length ha) hr sr qr in
          (
            omega (arith, ap length eh, length-append ha hr),
            omega (arith, ap length es, length-append sr sa),
          );
    }

pub write_fields-Ensures :
    (fs : Fields) (l : Lawful fs) (v : Values fs) (k : Frame) (b : Buffer) (z : Sizes) (H S : Bytes)
    → (fields_wire fs l).IsValue v
    → Holds k b z H S
    → Ensures k
        (total z + ((fields_wire fs l).heap_len v + (fields_wire fs l).stack_len v))
        (Written (fields_wire fs l) v z H S k)
        (write_fields fs v z b)
unfolding Values Lawful fields_wire write_fields
write_fields-Ensures nil l v k b z H S val h = record {
  post = λ room. (
    subst (λ n. Fits k n) (omega arith) (Holds-Fits h),
    (
      [],
      [],
      (refl, refl),
      omega arith,
      omega arith,
      Holds-eq h refl refl (sym (append-nil H)) refl,
    ),
  );
}
write_fields-Ensures (cons A c fs) (w, law, l) (v, vs) k b z H S (val, vals) h =
    Ensures-bind k (write_field c.formula c.ser v z b (is_nil fs)) _ (omega arith)
      (write_field-Ensures c.ser w law.writer c.formula (is_nil fs) v k b z H S law.sized val h)
      (λ (z1, b1) (ha, sa, q, eh, es, h1) fits room.
        let (lh, ls) = (field c.formula (is_nil fs) w).lengths v (length H) ha sa q in
        (Ensures-map (write_fields-Ensures fs l vs k b1 z1 (H ++ ha) (sa ++ S) vals h1)
            (omega arith)
            (λ (z2, b2) (hr, sr, qr, eh', es', h2). (
              ha ++ hr,
              sr ++ sa,
              (
                ha,
                sa,
                hr,
                sr,
                q,
                subst (λ n. (fields_wire fs l).Wire vs n hr sr) (length-append H ha) qr,
                refl,
                refl,
              ),
              omega (arith, length-append ha hr),
              omega (arith, length-append sr sa),
              Holds-eq h2 refl refl (append_assoc H ha hr) (sym (append_assoc sr sa S)),
            ))).post
          room)

sum_zero : (a : Option ℕ) → a ≡ sum_size a (some 0)
sum_zero none = refl
sum_zero (some a) = ap some (omega arith)

sum_assoc : (a b c : Option ℕ) → sum_size (sum_size a b) c ≡ sum_size a (sum_size b c)
sum_assoc none b c = refl
sum_assoc (some a) none c = refl
sum_assoc (some a) (some b) none = refl
sum_assoc (some a) (some b) (some c) = ap some (omega arith)

-- The maximum of the whole is the sum of the maxima.
fields_max-acc :
    (acc : Option ℕ) (fs : Fields) → fields_max acc fs ≡ sum_size acc (fields_max (some 0) fs)
unfolding fields_max
fields_max-acc acc nil = sum_zero acc
fields_max-acc acc (cons A c fs) =
    let m : Option ℕ = c.formula.max_stack_size in
    fields_max-acc (sum_size acc m) fs
    ∙ sum_assoc acc m (fields_max (some 0) fs)
    ∙ ap (λ t. sum_size acc (sum_size t (fields_max (some 0) fs))) (sym (last_sum m))
    ∙ ap (sum_size acc) (sym (fields_max-acc (sum_size (some 0) m) fs))

pub fields_max-cons :
    (A : Type 0) (c : Codec A) (fs : Fields)
    → fields_max (some 0) (cons A c fs) ≡ sum_size c.formula.max_stack_size (fields_max (some 0) fs)
unfolding fields_max
fields_max-cons A c fs =
    fields_max-acc (sum_size (some 0) c.formula.max_stack_size) fs
    ∙ ap (λ t. sum_size t (fields_max (some 0) fs)) (last_sum c.formula.max_stack_size)

pub read_fields-reads :
    (fs : Fields) (l : Lawful fs) (v : Values fs) (front hb mid sb pre : Bytes) (k : ℕ)
    → (fields_wire fs l).IsValue v
    → (fields_wire fs l).Wire v (length front) hb sb
    → pre ≡ front ++ (hb ++ mid)
    → k ≤ length pre
    → (fields_max (some 0) fs ≡ none → k ≡ 0)
    → read_fields fs (at_end pre sb k) ≡ ok v
unfolding Values Lawful fields_wire read_fields
read_fields-reads nil l v front hb mid sb pre k val q e hk h0 = refl
read_fields-reads (cons A c nil) (w, law, l) (v, vs) front hb mid sb pre k (val, vals)
      (ha, sa, hr, sr, q, (er, er'), eh, es) e hk h0 =
    let (de, r) =
      read_value-last c.formula c.de w law.reader v front ha mid sa pre k law.sized val
        (last_image c.formula.max_stack_size (w.Wire v (length front) ha) sa q.1)
        (rw (e, eh, er, append-nil ha)) hk
        (λ n. h0 (fields_max-cons A c nil ∙ ap (λ t. sum_size t (fields_max (some 0) nil)) n)) in
    rw (es, er', r)
read_fields-reads (cons A c (cons B d fs)) (w, law, l) (v, vs) front hb mid sb pre k (val, vals)
      (ha, sa, hr, sr, q, qr, eh, es) e hk h0 =
    let (regroup, first, second) = peel front ha hr mid sa sr hb sb pre k eh es e in
    ap (read_fields (cons A c (cons B d fs))) regroup
    ∙ rw (
      read_value-field c.formula c.de w law.reader v front ha ((hr ++ mid) ++ sr) sa (pre ++ sr)
          (k + length sr) val q.1 first,
      read_fields-reads (cons B d fs) l vs (front ++ ha) hr mid sr pre k vals
          (subst (λ n. (fields_wire (cons B d fs) l).Wire vs n hr sr) (sym (length-append front ha))
            qr)
          second hk
          (λ n. h0 (fields_max-cons A c (cons B d fs) ∙ sum_none c.formula.max_stack_size _ n)),
    )
