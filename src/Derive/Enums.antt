-- ===== src/Derive/Enums.antt =====
-- The code that is generated for an enum, against the contract of src/serialize.rs and
-- src/deserialize.rs.
use alkahest.Prelude.{
  ℕ, suc, ◌+◌, ◌≤◌, ◌≡◌, refl, sym, ap, ◌∙◌, Bool, true, false, ◌&&◌, Option, Option-cases, none,
  some, arith, some_inj, inl, inr, ltb, ltb-cases, le→ltb_false, if◌then◌else◌, ◌⊎◌,
}
use alkahest.Formula.{sum_size, max_size}
use alkahest.Sizes.{Sizes, with_stack}
use alkahest.Serialize.{formula_fast_sizes}
use alkahest.Codec.{IsCodec}
use alkahest.Tuple.Laws.{sum_parts, and_left, and_right}
use alkahest.Derive.{
  Fields, Variants, no_more, variant, Choice, variant_size, fields_max, fields_exact,
  fields_heapless, variants_max, variants_exact, variants_heapless, same_size, hint_variants,
  or_else, enum_formula, enum_hint, derived_enum,
}
use alkahest.Derive.Structs.{
  fields-bounded, fields-exact, fields-heap_free, heapless_acc, hint_fields_lem, fast_sizes_lem,
}
use alkahest.Derive.Choices.{
  AllLawful, IsChoice, choice_heap, choice_stack, enum_wire, enum-writes, enum-reads,
}

max_parts :
    (a b : Option ℕ) (n : ℕ)
    → max_size a b ≡ some n
    → (x : ℕ) × (y : ℕ) × (a ≡ some x) × (b ≡ some y) × (x ≤ n) × (y ≤ n)
max_parts none b n e = absurd (cc e)
max_parts (some a) none n e = absurd (cc e)
max_parts (some a) (some b) n e = let (p, q) = bound (ltb-cases b a) in (a, b, refl, refl, p, q)
  where
    bound : ((ltb b a ≡ true) × (suc b ≤ a)) ⊎ ((ltb b a ≡ false) × (a ≤ b)) → (a ≤ n) × (b ≤ n)
    bound (inl (t, h)) =
        let e' : a ≡ n = some_inj (sym (ap (λ c. if c then some a else some b) t) ∙ e) in
        (omega arith, omega arith)
    bound (inr (t, h)) =
        let e' : b ≡ n = some_inj (sym (ap (λ c. if c then some a else some b) t) ∙ e) in
        (omega arith, omega arith)

-- The maximum is at least that of the variants before.
acc_le :
    (acc : Option ℕ) (vs : Variants) (n : ℕ)
    → variants_max acc vs ≡ some n
    → (a : ℕ) × (acc ≡ some a) × (a ≤ n)
unfolding variants_max
acc_le acc no_more n e = (n, e, omega arith)
acc_le acc (variant fs vs) n e =
    let (m, em, h) = acc_le (max_size acc (fields_max (some 0) fs)) vs n e in
    let (x, y, ex, ey, hx, hy) = max_parts acc (fields_max (some 0) fs) m em in (x, ex, omega arith)

choice-bounded :
    (acc : Option ℕ) (vs : Variants) (l : AllLawful vs) (w : Choice vs) (n : ℕ)
    → IsChoice vs l w
    → variants_max acc vs ≡ some n
    → choice_stack vs l w ≤ n
unfolding Choice AllLawful IsChoice choice_stack variants_max
choice-bounded acc no_more l w n val e = absurd w
choice-bounded acc (variant fs vs) (l, ls) (inl v) n val e =
    let (m, em, h) = acc_le (max_size acc (fields_max (some 0) fs)) vs n e in
    let (x, y, ex, ey, hx, hy) = max_parts acc (fields_max (some 0) fs) m em in
    omega (arith, fields-bounded fs l v y val ey)
choice-bounded acc (variant fs vs) (l, ls) (inr w) n val e =
    choice-bounded (max_size acc (fields_max (some 0) fs)) vs ls w n val e

exact_acc :
    (x : Bool) (common : Option ℕ) (vs : Variants) → variants_exact x common vs ≡ true → x ≡ true
unfolding variants_exact
exact_acc x common no_more e = e
exact_acc x common (variant fs vs) e =
    let m : Option ℕ = fields_max (some 0) fs in
    and_left x (fields_exact true fs) (
      and_left (x && fields_exact true fs) (same_size common m)
        (exact_acc ((x && fields_exact true fs) && same_size common m) m vs e))

-- What an exact enum says of its first variant.
pub exact_head :
    (x : Bool) (common : Option ℕ) (fs : Fields) (vs : Variants)
    → variants_exact x common (variant fs vs) ≡ true
    → (fields_exact true fs ≡ true) × (same_size common (fields_max (some 0) fs) ≡ true)
unfolding variants_exact
exact_head x common fs vs e =
    let m : Option ℕ = fields_max (some 0) fs in
    let all = exact_acc ((x && fields_exact true fs) && same_size common m) m vs e in
    (
      and_right x (fields_exact true fs)
          (and_left (x && fields_exact true fs) (same_size common m) all),
      and_right (x && fields_exact true fs) (same_size common m) all,
    )

same_some : (c : ℕ) (m : Option ℕ) → same_size (some c) m ≡ true → m ≡ some c
same_some c none e = absurd (cc e)
same_some c (some m) e = ap some (ground arith)

pub some_of : (m : Option ℕ) → same_size none m ≡ true → (c : ℕ) × (m ≡ some c)
some_of none e = absurd (cc e)
some_of (some c) e = (c, refl)

-- All variants of an exact enum have the size of its first one.
pub exact_max :
    (x : Bool) (c : ℕ) (vs : Variants)
    → variants_exact x (some c) vs ≡ true
    → variants_max (some c) vs ≡ some c
unfolding variants_max variants_exact
exact_max x c no_more e = refl
exact_max x c (variant fs vs) e =
    let m : Option ℕ = fields_max (some 0) fs in
    let em : m ≡ some c = same_some c m (exact_head x (some c) fs vs e).1 in
    ap (λ t. variants_max (max_size (some c) t) vs) em
    ∙ ap (λ b. variants_max (if b then some c else some c) vs) (le→ltb_false c c (omega arith))
    ∙ exact_max ((x && fields_exact true fs) && same_size (some c) m) c vs (
        ap (λ t. variants_exact ((x && fields_exact true fs) && same_size (some c) m) t vs) (sym em)
        ∙ e)

exact_stack :
    (x : Bool) (c : ℕ) (vs : Variants) (l : AllLawful vs) (w : Choice vs)
    → variants_exact x (some c) vs ≡ true
    → IsChoice vs l w
    → choice_stack vs l w ≡ c
unfolding Choice AllLawful IsChoice choice_stack variants_exact
exact_stack x c no_more l w e val = absurd w
exact_stack x c (variant fs vs) (l, ls) (inl v) e val =
    let (ex, same) = exact_head x (some c) fs vs e in
    sym (fields-exact fs l v c val ex (same_some c (fields_max (some 0) fs) same))
exact_stack x c (variant fs vs) (l, ls) (inr w) e val =
    let m : Option ℕ = fields_max (some 0) fs in
    let em : m ≡ some c = same_some c m (exact_head x (some c) fs vs e).1 in
    exact_stack ((x && fields_exact true fs) && same_size (some c) m) c vs ls w
      (ap (λ t. variants_exact ((x && fields_exact true fs) && same_size (some c) m) t vs) (sym em)
        ∙ e)
      val

enum-exact :
    (vs : Variants) (l : AllLawful vs) (w : Choice vs)
    → variants_exact true none vs ≡ true
    → IsChoice vs l w
    → variants_max (some 0) vs ≡ some (choice_stack vs l w)
unfolding Choice AllLawful IsChoice choice_stack variants_max variants_exact
enum-exact no_more l w e val = absurd w
enum-exact (variant fs vs) (l, ls) w e val =
    let m : Option ℕ = fields_max (some 0) fs in
    let (ex, same) = exact_head true none fs vs e in
    let (c, em) = some_of m same in
    let e' : variants_exact ((true && fields_exact true fs) && same_size none m) (some c) vs
        ≡ true =
      ap (λ t. variants_exact ((true && fields_exact true fs) && same_size none m) t vs) (sym em)
      ∙ e in
    ap (λ t. variants_max (max_size (some 0) t) vs) em
    ∙ ap (λ b. variants_max (if b then some 0 else some c) vs) (le→ltb_false c 0 (omega arith))
    ∙ exact_max ((true && fields_exact true fs) && same_size none m) c vs e'
    ∙ ap some (sym (size c em ex e' w val))
  where
    size :
        (c : ℕ)
        → fields_max (some 0) fs ≡ some c
        → fields_exact true fs ≡ true
        → variants_exact
            ((true && fields_exact true fs) && same_size none (fields_max (some 0) fs))
            (some c)
            vs
          ≡ true
        → (w : Choice (variant fs vs)) → IsChoice (variant fs vs) (l, ls) w
        → choice_stack (variant fs vs) (l, ls) w ≡ c
    size c em ex e' (inl v) val = sym (fields-exact fs l v c val ex em)
    size c em ex e' (inr w) val =
        exact_stack ((true && fields_exact true fs) && same_size none (fields_max (some 0) fs)) c vs
          ls w e' val

heapless_before : (acc : Bool) (vs : Variants) → variants_heapless acc vs ≡ true → acc ≡ true
unfolding variants_heapless
heapless_before acc no_more e = e
heapless_before acc (variant fs vs) e =
    heapless_acc acc fs (heapless_before (fields_heapless acc fs) vs e)

choice-heap_free :
    (acc : Bool) (vs : Variants) (l : AllLawful vs) (w : Choice vs)
    → IsChoice vs l w
    → variants_heapless acc vs ≡ true
    → choice_heap vs l w ≡ 0
unfolding Choice AllLawful IsChoice choice_heap variants_heapless
choice-heap_free acc no_more l w val e = absurd w
choice-heap_free acc (variant fs vs) (l, ls) (inl v) val e =
    fields-heap_free acc fs l v val (heapless_before (fields_heapless acc fs) vs e)
choice-heap_free acc (variant fs vs) (l, ls) (inr w) val e =
    choice-heap_free (fields_heapless acc fs) vs ls w val e

hint_variants_lem :
    (vs : Variants) (l : AllLawful vs) (w : Choice vs) (z : Sizes)
    → IsChoice vs l w
    → hint_variants vs w ≡ some z
    → (z.heap ≡ choice_heap vs l w) × (z.stack ≡ variant_size + choice_stack vs l w)
unfolding Choice AllLawful IsChoice choice_heap choice_stack hint_variants
hint_variants_lem no_more l w z val e = absurd w
hint_variants_lem (variant fs vs) (l, ls) (inl v) z val e =
    let (eh, es) = hint_fields_lem fs l v (with_stack variant_size) z val e in
    (omega arith, omega arith)
hint_variants_lem (variant fs vs) (l, ls) (inr w) z val e = hint_variants_lem vs ls w z val e

module _ (vs : Variants) (l : AllLawful vs) where
  enum_hint_lem :
      (w : Choice vs) (z : Sizes)
      → IsChoice vs l w
      → enum_hint vs w ≡ some z
      → (z.heap ≡ choice_heap vs l w) × (z.stack ≡ variant_size + choice_stack vs l w)
  unfolding formula_fast_sizes
  enum_hint_lem w z val e = elim (Option-cases (formula_fast_sizes (enum_formula vs))) [
    | inl n ↦ hint_variants_lem vs l w z val (sym (ap (λ o. or_else o (hint_variants vs w)) n) ∙ e)
    | inr (y, ey) ↦
        let ez : y ≡ z = some_inj (sym (ap (λ o. or_else o (hint_variants vs w)) ey) ∙ e) in
        let (x, h, em, eh) =
          fast_sizes_lem (variants_exact true none vs) (variants_heapless true vs)
            (sum_size (some variant_size) (variants_max (some 0) vs)) y ey in
        (
          ap (λ t. t.heap) (sym ez) ∙ eh ∙ sym (choice-heap_free true vs l w val h),
          ap (λ t. t.stack) (sym ez)
              ∙ some_inj (sym em ∙ ap (sum_size (some variant_size)) (enum-exact vs l w x val)),
        )
  ]

  -- If the implementations of all fields of an enum keep the contract `IsCodec`, then the code
  -- that is generated for the enum keeps it for the variants whose index a `u32` holds, the
  -- size hints included.
  pub derived_enum-IsCodec : IsCodec (derived_enum vs) (enum_wire vs l)
  derived_enum-IsCodec = record {
    sized = record {
      bounded = λ w m (val, lt) e.
          let (x, y, ex, ey, exy) = sum_parts (some variant_size) (variants_max (some 0) vs) m e in
          omega (arith, some_inj ex, choice-bounded (some 0) vs l w y val ey);
      exact = λ w (val, lt) x. ap (sum_size (some variant_size)) (enum-exact vs l w x val);
      flat = λ w (val, lt) e.
          let (x, y, ex, ey, exy) = sum_parts (some variant_size) (variants_max (some 0) vs) 0 e in
          absurd (omega (arith, some_inj ex));
      heap_free = λ w (val, lt) e. choice-heap_free true vs l w val e;
    };
    writer = record {
      writes = enum-writes vs l;
      hint = λ w z (val, lt) e. enum_hint_lem w z val e;
    };
    reader = record { reads = enum-reads vs l };
  }
