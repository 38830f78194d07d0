-- ===== src/Slice/Laws.antt =====
-- The image of a slice whose elements take stack, `write_array`, and the reading of a slice.
use native.Mathlib.Nat.{suc-mul, le-div_iff_mul-le}
use alkahest.Prelude.{
  ℕ, zero, suc, ◌+◌, ◌*◌, ◌/◌, ◌≤◌, ◌≡◌, ◌≢◌, refl, sym, ap, subst, ◌∙◌, ◌++◌, [], ◌∷◌, List, true,
  false, Option, none, some, length, arith, le→leb, lt→ltb, le→ltb_false, length-append,
  append_assoc, append-nil,
}
use alkahest.Prelude.Words.{Bytes}
use alkahest.Outcome.{ok}
use alkahest.Formula.{Formula, size_stack, size_stack_pos}
use alkahest.Sizes.{Sizes, total}
use alkahest.Buffer.{Buffer}
use alkahest.Buffer.Holds.{
  Frame, Holds, Holds-eq, Fits, Holds-Fits, Ensures, Ensures-bind, Ensures-map,
}
use alkahest.Serialize.{write_field}
use alkahest.Serialize.Wire.{WireFormat, Written}
use alkahest.Serialize.Wire.Field.{field_len, field, write_field-Ensures}
use alkahest.Deserialize.{Deserializer, read_value}
use alkahest.Deserialize.Reads.{at_end, peel}
use alkahest.Deserialize.Fields.{read_value-field}
use alkahest.Codec.{Codec, IsCodec}
use alkahest.Slice.{write_array, slice_deserialize, iter_upper, collect, stack_empty}

module _ {T : Type 0} (f : Formula) (w : WireFormat T) where
  abbrev pub IsElements : List T → Type 0
  IsElements [] = Unit
  IsElements (v ∷ vs) = w.IsValue v × IsElements vs

  abbrev pub elements_heap : List T → ℕ
  elements_heap [] = 0
  elements_heap (v ∷ vs) = w.heap_len v + elements_heap vs

  abbrev pub elements_stack : List T → ℕ
  elements_stack [] = 0
  elements_stack (v ∷ vs) = field_len f.max_stack_size false (w.stack_len v) + elements_stack vs

  -- Each element is a field that is not the last; the first stands behind the others.
  abbrev pub ElementsWire : List T → ℕ → Bytes → Bytes → Type 0
  ElementsWire [] a hb sb = (hb ≡ []) × (sb ≡ [])
  ElementsWire (v ∷ vs) a hb sb =
      (ha : Bytes) × (sa : Bytes) × (hr : Bytes) × (sr : Bytes) × (field f false w).Wire v a ha sa
      × ElementsWire vs (a + length ha) hr sr
      × (hb ≡ ha ++ hr)
      × (sb ≡ sr ++ sa)

  pub elements_lengths :
      (vs : List T) (a : ℕ) (hb sb : Bytes)
      → ElementsWire vs a hb sb
      → (length hb ≡ elements_heap vs) × (length sb ≡ elements_stack vs)
  elements_lengths [] a hb sb q = (ap length q.0, ap length q.1)
  elements_lengths (v ∷ vs) a hb sb (ha, sa, hr, sr, q, qr, eh, es) =
      let (lh, ls) = (field f false w).lengths v a ha sa q in
      let (lh', ls') = elements_lengths vs (a + length ha) hr sr qr in
      (
        omega (arith, ap length eh, length-append ha hr),
        omega (arith, ap length es, length-append sr sa),
      )

  -- The image of the elements, for a formula whose maximum is not 0.
  abbrev pub elements_wire : WireFormat (List T)
  elements_wire = record {
    IsValue = IsElements;
    heap_len = elements_heap;
    stack_len = elements_stack;
    Wire = ElementsWire;
    lengths = elements_lengths;
  }

module _ {T : Type 0} (c : Codec T) (w : WireFormat T) (laws : IsCodec c w) where
  pub write_array-Ensures :
      (vs : List T) (k : Frame) (b : Buffer) (z : Sizes) (H S : Bytes)
      → (elements_wire c.formula w).IsValue vs
      → Holds k b z H S
      → Ensures k
          (total z + (elements_heap c.formula w vs + elements_stack c.formula w vs))
          (Written (elements_wire c.formula w) vs z H S k)
          (write_array c.formula c.ser vs z b)
  unfolding write_array
  write_array-Ensures [] k b z H S val h = record {
    post = λ room. (
      subst (λ n. Fits k n) (omega arith) (Holds-Fits h),
      (
        [],
        [],
        (refl, refl),
        omega arith,
        omega arith,
        Holds-eq h refl refl (sym (append-nil H)) refl,
      ),
    );
  }
  write_array-Ensures (v ∷ vs) k b z H S (val, vals) h =
      Ensures-bind k (write_field c.formula c.ser v z b false) _ (omega arith)
        (write_field-Ensures c.ser w laws.writer c.formula false v k b z H S laws.sized val h)
        (λ (z1, b1) (ha, sa, q, eh, es, h1) fits room.
          let (lh, ls) = (field c.formula false w).lengths v (length H) ha sa q in
          (Ensures-map (write_array-Ensures vs k b1 z1 (H ++ ha) (sa ++ S) vals h1) (omega arith)
              (λ (z2, b2) (hr, sr, qr, eh', es', h2). (
                ha ++ hr,
                sr ++ sa,
                (
                  ha,
                  sa,
                  hr,
                  sr,
                  q,
                  subst (λ n. (elements_wire c.formula w).Wire vs n hr sr) (length-append H ha) qr,
                  refl,
                  refl,
                ),
                omega (arith, length-append ha hr),
                omega (arith, length-append sr sa),
                Holds-eq h2 refl refl (append_assoc H ha hr) (sym (append_assoc sr sa S)),
              ))).post
            room)

  -- A number of bytes that each element takes at least.
  enough :
      (n : ℕ) (vs : List T)
      → ((v : T) → n ≤ field_len c.formula.max_stack_size false (w.stack_len v))
      → length vs * n ≤ elements_stack c.formula w vs
  enough n [] each = omega arith
  enough n (v ∷ vs) each = omega (arith, suc-mul (length vs) n, each v, enough n vs each)

  module _ (nonzero : c.formula.max_stack_size ≢ some 0) where
    -- The test that ends the iterator.
    ended : (m : Option ℕ) → m ≢ some 0 → stack_empty m 0 ≡ true
    unfolding stack_empty
    ended none h = lt→ltb 0 size_stack size_stack_pos
    ended (some zero) h = absurd (h refl)
    ended (some (suc m)) h = lt→ltb 0 (suc m) (omega arith)

    more : (m : Option ℕ) (n j : ℕ) → m ≢ some 0 → stack_empty m (j + field_len m false n) ≡ false
    unfolding stack_empty
    more none n j h = le→ltb_false (j + (n + size_stack)) size_stack (omega arith)
    more (some zero) n j h = absurd (h refl)
    more (some (suc m)) n j h = le→ltb_false (j + suc m) (suc m) (omega arith)

    collect_lem :
        (vs : List T) (front hb mid sb pre : Bytes) (upper : ℕ)
        → (elements_wire c.formula w).IsValue vs
        → (elements_wire c.formula w).Wire vs (length front) hb sb
        → pre ≡ front ++ (hb ++ mid)
        → length vs ≤ upper
        → collect c.formula c.de upper (at_end pre sb 0) ≡ ok vs
    unfolding collect
    collect_lem [] front hb mid sb pre zero val q e h = refl
    collect_lem [] front hb mid sb pre (suc upper) val (qh, qs) e h =
        let none_left : 0 + length sb ≡ 0 = ap (λ t. 0 + length t) qs in
        rw (none_left, ended c.formula.max_stack_size nonzero)
    collect_lem (v ∷ vs) front hb mid sb pre zero val q e h = absurd (omega arith)
    collect_lem (v ∷ vs) front hb mid sb pre (suc upper) (val, vals) (ha, sa, hr, sr, q, qr, eh, es)
          e h =
        let (lh, ls) = (field c.formula false w).lengths v (length front) ha sa q in
        let stack : 0 + length sb
            ≡ length sr + field_len c.formula.max_stack_size false (w.stack_len v) =
          omega (arith, ap length es, length-append sr sa) in
        let left : stack_empty c.formula.max_stack_size (0 + length sb) ≡ false =
          ap (stack_empty c.formula.max_stack_size) stack
          ∙ more c.formula.max_stack_size (w.stack_len v) (length sr) nonzero in
        let (regroup, first, second) = peel front ha hr mid sa sr hb sb pre 0 eh es e in
        let read : read_value c.formula c.de (at_end pre sb 0) false ≡ ok (at_end pre sr 0, v) =
          ap (λ de. read_value c.formula c.de de false) regroup
          ∙ read_value-field c.formula c.de w laws.reader v front ha ((hr ++ mid) ++ sr) sa
              (pre ++ sr) (0 + length sr) val q.1 first in
        rw (
          left,
          read,
          collect_lem vs (front ++ ha) hr mid sr pre upper vals
              (subst (λ n. (elements_wire c.formula w).Wire vs n hr sr)
                (sym (length-append front ha)) qr)
              second (omega arith),
        )

    -- The elements are at most as many as the stack has room for.
    upper_bound :
        (m : Option ℕ) (vs : List T) (n : ℕ)
        → m ≡ c.formula.max_stack_size
        → m ≢ some 0
        → n ≡ elements_stack c.formula w vs
        → (de : Deserializer) → de.stack ≡ n
        → (upper : ℕ) × (iter_upper m de ≡ ok (de, upper)) × (length vs ≤ upper)
    unfolding iter_upper
    upper_bound none vs n em h en de ed = (
      de.stack / size_stack,
      refl,
      (le-div_iff_mul-le size_stack_pos).1 (
          omega (
            arith,
            enough size_stack vs
                (λ v. omega (arith, ap (λ t. field_len t false (w.stack_len v)) em)),
          )),
    )
    upper_bound (some zero) vs n em h en de ed = absurd (h refl)
    upper_bound (some (suc x)) vs n em h en de ed = (
      de.stack / suc x,
      refl,
      (le-div_iff_mul-le (omega arith)).1 (
          omega (
            arith,
            enough (suc x) vs (λ v. omega (arith, ap (λ t. field_len t false (w.stack_len v)) em)),
          )),
    )

    -- For a formula that keeps the contract `IsCodec` and whose maximum is not 0:
    -- `deserialize` of a slice returns the list whose image the stack consists of.
    pub slice_reads :
        (vs : List T) (front hb mid sb pre : Bytes)
        → (elements_wire c.formula w).IsValue vs
        → (elements_wire c.formula w).Wire vs (length front) hb sb
        → pre ≡ front ++ (hb ++ mid)
        → slice_deserialize c.formula c.de (at_end pre sb 0) ≡ ok vs
    unfolding slice_deserialize
    slice_reads vs front hb mid sb pre val q e =
        let (lh, ls) = elements_lengths c.formula w vs (length front) hb sb q in
        let (upper, r, le) =
          upper_bound c.formula.max_stack_size vs (length sb) refl nonzero ls (at_end pre sb 0)
            (omega arith) in
        rw (
          r,
          le→leb (0 + length sb) (length (pre ++ sb)) (omega (arith, length-append pre sb)),
          collect_lem vs front hb mid sb pre upper val q e le,
        )
