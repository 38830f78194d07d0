-- ===== src/Derive/Structs.antt =====
-- The code that is generated for a struct, against the contract of src/serialize.rs and
-- src/deserialize.rs.
use alkahest.Prelude.{
  ℕ, ◌+◌, ◌≤◌, ◌≡◌, ◌≢◌, refl, sym, ap, ◌∙◌, Bool, true, false, ◌&&◌, Option, Option-cases, none,
  some, arith, some_inj, inl, inr,
}
use alkahest.Sizes.{Sizes, with_stack}
use alkahest.Serialize.{hint_of_field, field_size_hint, fast_sizes, formula_fast_sizes}
use alkahest.Serialize.Wire.Field.{field_len}
use alkahest.Codec.{IsCodec}
use alkahest.Tuple.{add_hint}
use alkahest.Tuple.Laws.{last_len, sum_parts, and_left, and_right}
use alkahest.Slice.{and_then}
use alkahest.Derive.{
  Fields, nil, cons, Values, is_nil, fields_max, fields_exact, fields_heapless, hint_fields,
  or_else, struct_formula, struct_hint, derived_struct,
}
use alkahest.Derive.Images.{
  Lawful, fields_wire, fields_max-cons, write_fields-Ensures, read_fields-reads,
}

-- The stack bytes of a field are at most its maximum.
field_le : (m : Option ℕ) (last : Bool) (n x : ℕ) → m ≡ some x → n ≤ x → field_len m last n ≤ x
field_le none last n x e h = absurd (cc e)
field_le (some m) true n x e h = h
field_le (some m) false n x e h = omega (arith, some_inj e)

pub fields-bounded :
    (fs : Fields) (l : Lawful fs) (v : Values fs) (m : ℕ)
    → (fields_wire fs l).IsValue v
    → fields_max (some 0) fs ≡ some m
    → (fields_wire fs l).stack_len v ≤ m
unfolding Values Lawful fields_wire
fields-bounded nil l v m val e = omega arith
fields-bounded (cons A c fs) (w, law, l) (v, vs) m (val, vals) e =
    let (x, y, ex, ey, exy) =
      sum_parts c.formula.max_stack_size (fields_max (some 0) fs) m
        (sym (fields_max-cons A c fs) ∙ e) in
    omega (
      arith,
      field_le c.formula.max_stack_size (is_nil fs) (w.stack_len v) x ex
          (law.sized.bounded v x val ex),
      fields-bounded fs l vs y vals ey,
    )

fields_max-nil : fields_max (some 0) nil ≡ some 0
unfolding fields_max
fields_max-nil = refl

-- An exact struct is as long as its maximum, if it has one.
pub fields-exact :
    (fs : Fields) (l : Lawful fs) (v : Values fs) (m : ℕ)
    → (fields_wire fs l).IsValue v
    → fields_exact true fs ≡ true
    → fields_max (some 0) fs ≡ some m
    → m ≡ (fields_wire fs l).stack_len v
unfolding Values Lawful fields_wire fields_exact
fields-exact nil l v m val x e = sym (some_inj (sym fields_max-nil ∙ e))
fields-exact (cons A c nil) (w, law, l) (v, vs) m (val, vals) x e =
    let (a, y, ea, ey, eay) =
      sum_parts c.formula.max_stack_size (fields_max (some 0) nil) m
        (sym (fields_max-cons A c nil) ∙ e) in
    omega (
      arith,
      some_inj (sym fields_max-nil ∙ ey),
      some_inj (sym ea ∙ law.sized.exact v val x),
      last_len c.formula.max_stack_size (w.stack_len v),
    )
fields-exact (cons A c (cons B d fs)) (w, law, l) (v, vs) m (val, vals) x e =
    let (a, y, ea, ey, eay) =
      sum_parts c.formula.max_stack_size (fields_max (some 0) (cons B d fs)) m
        (sym (fields_max-cons A c (cons B d fs)) ∙ e) in
    omega (
      arith,
      ap (λ t. field_len t false (w.stack_len v)) ea,
      fields-exact (cons B d fs) l vs y vals x ey,
    )

pub fields-flat :
    (fs : Fields) (l : Lawful fs) (v : Values fs)
    → (fields_wire fs l).IsValue v
    → fields_max (some 0) fs ≡ some 0
    → (fields_wire fs l).heap_len v ≡ 0
unfolding Values Lawful fields_wire
fields-flat nil l v val e = refl
fields-flat (cons A c fs) (w, law, l) (v, vs) (val, vals) e =
    let (x, y, ex, ey, exy) =
      sum_parts c.formula.max_stack_size (fields_max (some 0) fs) 0
        (sym (fields_max-cons A c fs) ∙ e) in
    let x0 : x ≡ 0 = omega arith in
    let y0 : y ≡ 0 = omega arith in
    omega
      (arith, law.sized.flat v val (ex ∙ ap some x0), fields-flat fs l vs vals (ey ∙ ap some y0))

-- The flags of the fields, from the flag of all of them and of those before.
pub heapless_acc : (acc : Bool) (fs : Fields) → fields_heapless acc fs ≡ true → acc ≡ true
unfolding fields_heapless
heapless_acc acc nil e = e
heapless_acc acc (cons A c fs) e =
    and_left acc c.formula.heapless (heapless_acc (acc && c.formula.heapless) fs e)

pub fields-heap_free :
    (acc : Bool) (fs : Fields) (l : Lawful fs) (v : Values fs)
    → (fields_wire fs l).IsValue v
    → fields_heapless acc fs ≡ true
    → (fields_wire fs l).heap_len v ≡ 0
unfolding Values Lawful fields_wire fields_heapless
fields-heap_free acc nil l v val e = refl
fields-heap_free acc (cons A c fs) (w, law, l) (v, vs) (val, vals) e =
    let h = and_right acc c.formula.heapless (heapless_acc (acc && c.formula.heapless) fs e) in
    omega (
      arith,
      law.sized.heap_free v val h,
      fields-heap_free (acc && c.formula.heapless) fs l vs vals e,
    )

hint_step :
    (m : Option ℕ) (last : Bool) (o : Option Sizes) (t y : Sizes) (h s : ℕ)
    → ((y : Sizes) → o ≡ some y → (y.heap ≡ h) × (y.stack ≡ s))
    → add_hint t (hint_of_field m last o) ≡ some y
    → (y.heap ≡ t.heap + h) × (y.stack ≡ t.stack + field_len m last s)
unfolding hint_of_field
hint_step none true none t y h s p e = absurd (cc e)
hint_step none true (some z) t y h s p e = ground (arith, p z refl)
hint_step none false o t y h s p e = absurd (cc e)
hint_step (some m) true none t y h s p e = absurd (cc e)
hint_step (some m) true (some z) t y h s p e = ground (arith, p z refl)
hint_step (some m) false none t y h s p e = absurd (cc e)
hint_step (some m) false (some z) t y h s p e = ground (arith, p z refl)

-- The hints of the fields add up to the sizes of the image.
pub hint_fields_lem :
    (fs : Fields) (l : Lawful fs) (v : Values fs) (t z : Sizes)
    → (fields_wire fs l).IsValue v
    → hint_fields fs v t ≡ some z
    → (z.heap ≡ t.heap + (fields_wire fs l).heap_len v)
      × (z.stack ≡ t.stack + (fields_wire fs l).stack_len v)
unfolding Values Lawful fields_wire hint_fields field_size_hint
hint_fields_lem nil l v t z val e = ground arith
hint_fields_lem (cons A c fs) (w, law, l) (v, vs) t z (val, vals) e =
    elim (Option-cases (add_hint t (field_size_hint c.formula c.ser v (is_nil fs)))) [
      | inl n ↦ absurd (cc (sym (ap (λ o. and_then o (λ t'. hint_fields fs vs t')) n) ∙ e))
      | inr (y, ey) ↦
          let (eh, es) =
            hint_step c.formula.max_stack_size (is_nil fs) (c.ser.size_hint v) t y (w.heap_len v)
              (w.stack_len v) (λ y' e'. law.writer.hint v y' val e') ey in
          let (eh', es') =
            hint_fields_lem fs l vs y z vals
              (sym (ap (λ o. and_then o (λ t'. hint_fields fs vs t')) ey) ∙ e) in
          (omega arith, omega arith)
    ]

-- The fast path: exact, no heap, and a maximum.
pub fast_sizes_lem :
    (x h : Bool) (m : Option ℕ) (z : Sizes)
    → fast_sizes x h m ≡ some z
    → (x ≡ true) × (h ≡ true) × (m ≡ some z.stack) × (z.heap ≡ 0)
unfolding fast_sizes
fast_sizes_lem true true none z e = absurd (cc e)
fast_sizes_lem true true (some m) z e =
    let e' = some_inj e in (refl, refl, ap (λ y. some y.stack) e', ap (λ y. y.heap) (sym e'))
fast_sizes_lem true false m z e = absurd (cc e)
fast_sizes_lem false h m z e = absurd (cc e)

module _ (fs : Fields) (l : Lawful fs) where
  struct_hint_lem :
      (v : Values fs) (z : Sizes)
      → (fields_wire fs l).IsValue v
      → struct_hint fs v ≡ some z
      → (z.heap ≡ (fields_wire fs l).heap_len v) × (z.stack ≡ (fields_wire fs l).stack_len v)
  unfolding formula_fast_sizes
  struct_hint_lem v z val e = elim (Option-cases (formula_fast_sizes (struct_formula fs))) [
    | inl n ↦
        let (eh, es) =
          hint_fields_lem fs l v (with_stack 0) z val
            (sym (ap (λ o. or_else o (hint_fields fs v (with_stack 0))) n) ∙ e) in
        (omega arith, omega arith)
    | inr (y, ey) ↦
        let ez : y ≡ z =
          some_inj (sym (ap (λ o. or_else o (hint_fields fs v (with_stack 0))) ey) ∙ e) in
        let (x, h, em, eh) =
          fast_sizes_lem (fields_exact true fs) (fields_heapless true fs) (fields_max (some 0) fs) y
            ey in
        (
          ap (λ t. t.heap) (sym ez) ∙ eh ∙ sym (fields-heap_free true fs l v val h),
          ap (λ t. t.stack) (sym ez) ∙ fields-exact fs l v y.stack val x em,
        )
  ]

  -- If the implementations of the fields of a struct keep the contract `IsCodec`, and the
  -- struct has a maximum if its last field is exact, then the code that is generated for the
  -- struct keeps the contract, the size hints included.
  pub derived_struct-IsCodec :
      (fields_exact true fs ≡ true → fields_max (some 0) fs ≢ none)
      → IsCodec (derived_struct fs) (fields_wire fs l)
  derived_struct-IsCodec sure = record {
    sized = record {
      bounded = fields-bounded fs l;
      exact = λ v val x. elim (Option-cases (fields_max (some 0) fs)) [
        | inl n ↦ absurd (sure x n)
        | inr (m, em) ↦ em ∙ ap some (fields-exact fs l v m val x em)
      ];
      flat = fields-flat fs l;
      heap_free = fields-heap_free true fs l;
    };
    writer = record { writes = write_fields-Ensures fs l; hint = struct_hint_lem };
    reader = record { reads = read_fields-reads fs l };
  }
