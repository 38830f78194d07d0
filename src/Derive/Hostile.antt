-- ===== src/Derive/Hostile.antt =====
-- The generated `deserialize` of proc/src/deserialize.rs on any input.
use alkahest.Prelude.{
  ℕ, zero, suc, ◌+◌, ◌≡◌, ◌≢◌, refl, sym, ap, ◌∙◌, true, false, ◌&&◌, Option, Option-cases, none,
  some, inl, inr, arith, le→ltb_false, if◌then◌else◌,
}
use alkahest.Formula.{sum_size, max_size}
use alkahest.Deserialize.{Deserializer, read_value}
use alkahest.Safety.{Returns, Returns-bind, IsSound}
use alkahest.Safety.Methods.{read_value-Returns}
use alkahest.Safety.Formulas.{Safe, int-Safe}
use alkahest.Derive.{
  Fields, nil, cons, Values, is_nil, read_fields, fields_max, fields_exact, derived_struct,
  Variants, no_more, variant, Choice, variant_size, u32, read_variants, enum_deserialize,
  variants_max, variants_exact, same_size, derived_enum,
}
use alkahest.Derive.Enums.{exact_head, exact_max, some_of}

unfoldable pub AllSafe : Fields → Type 0
AllSafe nil = Unit
AllSafe (cons A c fs) = Safe c × AllSafe fs

read_fields-Returns :
    (fs : Fields)
    → AllSafe fs
    → (de : Deserializer) → IsSound de
    → Returns (λ v. Unit) (read_fields fs de)
unfolding AllSafe read_fields Values
read_fields-Returns nil safe de s = tt
read_fields-Returns (cons A c fs) (safe, rest) de s =
    Returns-bind _ _ (read_value c.formula c.de de (is_nil fs)) _
      (read_value-Returns c.formula c.de safe de (is_nil fs) s)
      (λ (de', v) p.
        Returns-bind (λ v. Unit) _ (read_fields fs de') _ (read_fields-Returns fs rest de' p.0)
          (λ vs u. tt))

-- If the readers of the fields of a struct return on every input, and the struct has a maximum if it
-- is exact, then its reader does.
pub derived_struct-Safe :
    (fs : Fields)
    → AllSafe fs
    → (fields_exact true fs ≡ true → fields_max (some 0) fs ≢ none)
    → Safe (derived_struct fs)
derived_struct-Safe fs safe sure = record {
  sized =
      λ x. elim (Option-cases (fields_max (some 0) fs)) [ inl n ↦ absurd (sure x n) | inr r ↦ r ];
  returns = read_fields-Returns fs safe;
}

unfoldable pub EverySafe : Variants → Type 0
unfolding AllSafe
EverySafe no_more = Unit
EverySafe (variant fs vs) = AllSafe fs × EverySafe vs

read_variants-Returns :
    (idx place : ℕ) (vs : Variants)
    → EverySafe vs
    → (de : Deserializer) → IsSound de
    → Returns (λ v. Unit) (read_variants idx place vs de)
unfolding EverySafe read_variants Choice
read_variants-Returns idx place no_more safe de s = tt
read_variants-Returns idx zero (variant fs vs) (safe, rest) de s =
    Returns-bind (λ v. Unit) _ (read_fields fs de) _ (read_fields-Returns fs safe de s) (λ v u. tt)
read_variants-Returns idx (suc place) (variant fs vs) (safe, rest) de s =
    Returns-bind (λ v. Unit) _ (read_variants idx place vs de) _
      (read_variants-Returns idx place vs rest de s) (λ v u. tt)

exact-sized :
    (vs : Variants)
    → variants_exact true none vs ≡ true
    → (n : ℕ) × (variants_max (some 0) vs ≡ some n)
unfolding variants_max variants_exact
exact-sized no_more e = (0, refl)
exact-sized (variant fs vs) e =
    let m : Option ℕ = fields_max (some 0) fs in
    let (ex, same) = exact_head true none fs vs e in
    let (c, em) = some_of m same in
    (
      c,
      ap (λ t. variants_max (max_size (some 0) t) vs) em
          ∙ ap (λ b. variants_max (if b then some 0 else some c) vs)
              (le→ltb_false c 0 (omega arith))
          ∙ exact_max ((true && fields_exact true fs) && same_size none m) c vs (
              ap (λ t. variants_exact ((true && fields_exact true fs) && same_size none m) t vs)
                (sym em)
              ∙ e),
    )

-- If the readers of all fields of an enum return on every input, then the reader that is
-- generated for the enum does, an unknown variant included, and an exact enum has a maximum.
pub derived_enum-Safe : (vs : Variants) → EverySafe vs → Safe (derived_enum vs)
unfolding enum_deserialize
derived_enum-Safe vs safe = record {
  sized =
      λ x. let (n, e) = exact-sized vs x in (variant_size + n, ap (sum_size (some variant_size)) e);
  returns = λ de s.
      Returns-bind _ _ (read_value u32.formula u32.de de false) _
        (read_value-Returns u32.formula u32.de (int-Safe variant_size) de false s)
        (λ (de', idx) p. read_variants-Returns idx idx vs safe de' p.0);
}
