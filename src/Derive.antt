-- ===== src/Derive.antt =====
-- The code that the macros of proc/src/formula.rs, proc/src/serialize.rs and
-- proc/src/deserialize.rs generate for a struct and for an enum, with the parts of `private` in
-- src/lib.rs that it calls. The fields of a struct or of a variant are a list of implementations,
-- and the variants of an enum a list of such lists.
pub mod Images
pub mod Structs
pub mod Choices
pub mod Enums
pub mod Hostile
use alkahest.Prelude.{
  ℕ, zero, suc, ◌+◌, Bool, true, false, ◌&&◌, Option, none, some, ◌==◌, ◌⊎◌, inl, inr,
}
use alkahest.Outcome.{ok, err, panic, ◌>>=◌, ◌>>◌, assert}
use alkahest.Formula.{Formula, sum_size, max_size}
use alkahest.Sizes.{Sizes, with_stack, add}
use alkahest.Buffer.{Buffer, Write}
use alkahest.Serialize.{Serialize, write_field, field_size_hint, formula_fast_sizes, unwrap}
use alkahest.Deserialize.{Deserialize, Deserializer, Read, read_value, wrong_variant}
use alkahest.Primitive.{int}
use alkahest.Tuple.{add_hint}
use alkahest.Slice.{and_then}
use alkahest.Codec.{Codec}

pub data Fields : Type 1 where
  nil : Fields
  cons : (A : Type 0) → Codec A → Fields → Fields

unfoldable pub Values : Fields → Type 0
Values nil = Unit
Values (cons A c fs) = A × Values fs

-- `#field_count == 1 + #field_ids`
abbrev pub is_nil : Fields → Bool
is_nil nil = true
is_nil (cons A c fs) = false

-- `max_size = sum_size(max_size, ..)`, field by field.
unfoldable pub fields_max : Option ℕ → Fields → Option ℕ
fields_max max_size nil = max_size
fields_max max_size (cons A c fs) = fields_max (sum_size max_size c.formula.max_stack_size) fs

-- `true; <#last_field_type>::EXACT_SIZE`
unfoldable pub fields_exact : Bool → Fields → Bool
fields_exact exact nil = exact
fields_exact exact (cons A c nil) = c.formula.exact_size
fields_exact exact (cons A c (cons B d fs)) = fields_exact exact (cons B d fs)

-- `true #(&& ..::HEAPLESS)*`
unfoldable pub fields_heapless : Bool → Fields → Bool
fields_heapless heapless nil = heapless
fields_heapless heapless (cons A c fs) = fields_heapless (heapless && c.formula.heapless) fs

unfoldable pub write_fields : (fs : Fields) → Values fs → Sizes → Buffer → Write (Sizes × Buffer)
unfolding Values
write_fields nil v z b = ok (z, b)
write_fields (cons A c fs) (v, vs) z b = do
  (z1, b1) ← write_field c.formula c.ser v z b (is_nil fs)
  write_fields fs vs z1 b1

unfoldable pub hint_fields : (fs : Fields) → Values fs → Sizes → Option Sizes
unfolding Values
hint_fields nil v total = some total
hint_fields (cons A c fs) (v, vs) total =
    and_then (add_hint total (field_size_hint c.formula c.ser v (is_nil fs)))
      (λ total'. hint_fields fs vs total')

unfoldable pub read_fields : (fs : Fields) → Deserializer → Read (Values fs)
unfolding Values
read_fields nil de = ok tt
read_fields (cons A c fs) de = do
  (de', v) ← read_value c.formula c.de de (is_nil fs)
  vs ← read_fields fs de'
  ok (v, vs)

abbrev pub struct_formula : Fields → Formula
struct_formula fs = record {
  max_stack_size = fields_max (some 0) fs;
  exact_size = fields_exact true fs;
  heapless = fields_heapless true fs;
}

-- `if let Some(sizes) = formula_fast_sizes() { return Some(sizes) }`
abbrev pub or_else : Option Sizes → Option Sizes → Option Sizes
or_else none rest = rest
or_else (some z) rest = some z

abbrev pub struct_hint : (fs : Fields) → Values fs → Option Sizes
struct_hint fs v =
    or_else (formula_fast_sizes (struct_formula fs)) (hint_fields fs v (with_stack 0))

abbrev pub derived_struct : (fs : Fields) → Codec (Values fs)
derived_struct fs = record {
  formula = struct_formula fs;
  ser = record { serialize = write_fields fs; size_hint = struct_hint fs };
  de = record { deserialize = read_fields fs };
}

pub data Variants : Type 1 where
  no_more : Variants
  variant : Fields → Variants → Variants

-- A variant, by its place, and its fields.
unfoldable pub Choice : Variants → Type 0
Choice no_more = ⊥
Choice (variant fs vs) = Values fs ⊎ Choice vs

-- `VARIANT_SIZE`
abbrev pub variant_size : ℕ
variant_size = 4

abbrev pub u32 : Codec ℕ
u32 = int variant_size

unfoldable pub variants_max : Option ℕ → Variants → Option ℕ
unfolding fields_max
variants_max max no_more = max
variants_max max (variant fs vs) = variants_max (max_size max (fields_max (some 0) fs)) vs

-- `match (common_size, var_size) { .. }`
abbrev pub same_size : Option ℕ → Option ℕ → Bool
same_size common none = false
same_size none (some var) = true
same_size (some common) (some var) = common == var

unfoldable pub variants_exact : Bool → Option ℕ → Variants → Bool
unfolding fields_max fields_exact
variants_exact exact common no_more = exact
variants_exact exact common (variant fs vs) =
    let var_size = fields_max (some 0) fs in
    variants_exact ((exact && fields_exact true fs) && same_size common var_size) var_size vs

unfoldable pub variants_heapless : Bool → Variants → Bool
unfolding fields_heapless
variants_heapless heapless no_more = heapless
variants_heapless heapless (variant fs vs) = variants_heapless (fields_heapless heapless fs) vs

abbrev pub enum_formula : Variants → Formula
enum_formula vs = record {
  max_stack_size = sum_size (some variant_size) (variants_max (some 0) vs);
  exact_size = variants_exact true none vs;
  heapless = variants_heapless true vs;
}

-- src/serialize.rs
unfoldable pub write_exact_size_field :
    {T : Type 0} → Formula → Serialize T → T → Sizes → Buffer → Write (Sizes × Buffer)
write_exact_size_field f s value z b = do
  assert f.exact_size
  (z', b') ← s.serialize value z b
  max_stack ← unwrap f.max_stack_size
  assert (z.stack + max_stack == z'.stack)
  ok (z', b')

-- The arm of a variant, whose index is the first argument.
unfoldable pub write_variant :
    ℕ → (fs : Fields) → Values fs → Sizes → Buffer → Write (Sizes × Buffer)
unfolding write_exact_size_field write_fields
write_variant idx fs v z b = do
  (z1, b1) ← write_exact_size_field u32.formula u32.ser idx z b
  write_fields fs v z1 b1

unfoldable pub write_variants :
    ℕ → (vs : Variants) → Choice vs → Sizes → Buffer → Write (Sizes × Buffer)
unfolding Choice write_variant
write_variants idx no_more v z b = absurd v
write_variants idx (variant fs vs) (inl v) z b = write_variant idx fs v z b
write_variants idx (variant fs vs) (inr w) z b = write_variants (suc idx) vs w z b

unfoldable pub hint_variants : (vs : Variants) → Choice vs → Option Sizes
unfolding Choice hint_fields
hint_variants no_more v = absurd v
hint_variants (variant fs vs) (inl v) = hint_fields fs v (with_stack variant_size)
hint_variants (variant fs vs) (inr w) = hint_variants vs w

abbrev pub enum_hint : (vs : Variants) → Choice vs → Option Sizes
enum_hint vs v = or_else (formula_fast_sizes (enum_formula vs)) (hint_variants vs v)

-- `match variant_idx`: the arms that are left, the place among them, and the index itself.
unfoldable pub read_variants : ℕ → ℕ → (vs : Variants) → Deserializer → Read (Choice vs)
unfolding Choice read_fields
read_variants idx place no_more de = err (wrong_variant idx)
read_variants idx zero (variant fs vs) de = read_fields fs de >>= λ v. ok (inl v)
read_variants idx (suc place) (variant fs vs) de = read_variants idx place vs de >>= λ w. ok (inr w)

unfoldable pub enum_deserialize : (vs : Variants) → Deserializer → Read (Choice vs)
unfolding read_variants
enum_deserialize vs de = do
  (de', idx) ← read_value u32.formula u32.de de false
  read_variants idx idx vs de'

abbrev pub derived_enum : (vs : Variants) → Codec (Choice vs)
derived_enum vs = record {
  formula = enum_formula vs;
  ser = record { serialize = write_variants 0 vs; size_hint = enum_hint vs };
  de = record { deserialize = enum_deserialize vs };
}
