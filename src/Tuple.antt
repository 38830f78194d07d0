-- ===== src/Tuple.antt =====
-- src/tuple.rs. The macro unrolls a tuple field by field; here a tuple is its first field and the
-- tuple of the others: `tuple_last` is the field that ends it and `tuple_cons` one more in front.
pub mod Laws
use alkahest.Prelude.{ℕ, ◌+◌, Bool, true, false, ◌&&◌, Option, none, some}
use alkahest.Outcome.{ok, ◌>>=◌}
use alkahest.Formula.{Formula, sum_size, size_stack}
use alkahest.Sizes.{Sizes, sizes_zero, add, add_stack}
use alkahest.Buffer.{Buffer, Write}
use alkahest.Serialize.{Serialize, write_field, field_size_hint}
use alkahest.Deserialize.{Deserialize, Deserializer, Read, read_value}
use alkahest.Codec.{Codec}

-- `()`
abbrev pub empty : Codec Unit
empty = record {
  formula = record { max_stack_size = some 0; exact_size = true; heapless = true };
  ser = record { serialize = λ v z b. ok (z, b); size_hint = λ v. some sizes_zero };
  de = record { deserialize = λ de. ok tt };
}

abbrev pub last_formula : Formula → Formula
last_formula f = record f { max_stack_size = sum_size (some 0) f.max_stack_size }

abbrev pub cons_formula : Formula → Formula → Formula
cons_formula f r = record {
  max_stack_size = sum_size f.max_stack_size r.max_stack_size;
  exact_size = f.exact_size && r.exact_size;
  heapless = f.heapless && r.heapless;
}

-- `sizes += hint?`
abbrev pub add_hint : Sizes → Option Sizes → Option Sizes
add_hint z none = none
add_hint z (some y) = some (add z y)

-- `if A::MAX_STACK_SIZE.is_none() { sizes.add_stack(SIZE_STACK) }`
abbrev pub prefix_size : Option ℕ → Sizes
prefix_size none = add_stack sizes_zero size_stack
prefix_size (some m) = sizes_zero

-- The hint of a field, and then those of the fields behind it.
abbrev pub cons_hint : Option Sizes → Option Sizes → Option Sizes
cons_hint none rest = none
cons_hint (some z) rest = add_hint z rest

module _ {A : Type 0} (f : Formula) where
  unfoldable pub last_serialize : Serialize A → A → Sizes → Buffer → Write (Sizes × Buffer)
  last_serialize s value z b = write_field f s value z b true

  unfoldable pub last_hint : Serialize A → A → Option Sizes
  last_hint s value = add_hint sizes_zero (field_size_hint f s value true)

  unfoldable pub last_deserialize : Deserialize A → Deserializer → Read A
  last_deserialize d de = do (_, value) ← read_value f d de true; ok value

  module _ {R : Type 0} where
    unfoldable pub cons_serialize :
        Serialize A → Serialize R → A × R → Sizes → Buffer → Write (Sizes × Buffer)
    cons_serialize s rest (value, others) z b = do
      (z1, b1) ← write_field f s value z b false
      rest.serialize others z1 b1

    unfoldable pub cons_size_hint : Serialize A → Serialize R → A × R → Option Sizes
    cons_size_hint s rest (value, others) =
        cons_hint (add_hint (prefix_size f.max_stack_size) (field_size_hint f s value false))
          (rest.size_hint others)

    unfoldable pub cons_deserialize : Deserialize A → Deserialize R → Deserializer → Read (A × R)
    cons_deserialize d rest de = do
      (de', value) ← read_value f d de false
      others ← rest.deserialize de'
      ok (value, others)

abbrev pub tuple_last : {A : Type 0} → Codec A → Codec A
tuple_last c = record {
  formula = last_formula c.formula;
  ser = record {
    serialize = last_serialize c.formula c.ser;
    size_hint = last_hint c.formula c.ser;
  };
  de = record { deserialize = last_deserialize c.formula c.de };
}

abbrev pub tuple_cons : {A R : Type 0} → Codec A → Codec R → Codec (A × R)
tuple_cons c rest = record {
  formula = cons_formula c.formula rest.formula;
  ser = record {
    serialize = cons_serialize c.formula c.ser rest.ser;
    size_hint = cons_size_hint c.formula c.ser rest.ser;
  };
  de = record { deserialize = cons_deserialize c.formula c.de rest.de };
}
