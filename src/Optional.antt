-- ===== src/Optional.antt =====
-- src/option.rs
pub mod Laws
use alkahest.Prelude.{ℕ, ◌+◌, Bool, true, false, Option, none, some, ◌==◌, [], ◌∷◌}
use alkahest.Outcome.{ok, ◌>>=◌}
use alkahest.Formula.{Formula, sum_size}
use alkahest.Sizes.{Sizes, with_stack, add_stack}
use alkahest.Buffer.{Buffer, Write}
use alkahest.Serialize.{Serialize, write_bytes, write_field, field_size_hint}
use alkahest.Deserialize.{Deserialize, Deserializer, Read, read_byte, read_value}
use alkahest.Codec.{Codec}
use alkahest.Reference.{is_empty_stack}

abbrev pub option_formula : Formula → Formula
option_formula f = record {
  max_stack_size = sum_size (some 1) f.max_stack_size;
  exact_size = is_empty_stack f.max_stack_size;
  heapless = f.heapless;
}

-- The hints of the two variants, from the maximum of the option and from the hint of the field.
abbrev pub none_hint : Option ℕ → Option Sizes
none_hint none = none
none_hint (some stack) = some (with_stack stack)

abbrev pub some_hint : Option Sizes → Option Sizes
some_hint none = none
some_hint (some z) = some (add_stack z 1)

module _ {T : Type 0} (f : Formula) where
  unfoldable pub option_serialize : Serialize T → Option T → Sizes → Buffer → Write (Sizes × Buffer)
  option_serialize s none z b = write_bytes (0 ∷ []) z b
  option_serialize s (some value) z b = do
    (z1, b1) ← write_bytes (1 ∷ []) z b
    write_field f s value z1 b1 true

  unfoldable pub option_size_hint : Serialize T → Option T → Option Sizes
  option_size_hint s none = none_hint (sum_size (some 1) f.max_stack_size)
  option_size_hint s (some value) = some_hint (field_size_hint f s value true)

  -- The variant that the tag byte tells, and the rest of the input.
  unfoldable pub option_variant : Deserialize T → Bool → Deserializer → Read (Option T)
  option_variant d true de = ok none
  option_variant d false de = do (_, value) ← read_value f d de true; ok (some value)

  unfoldable pub option_deserialize : Deserialize T → Deserializer → Read (Option T)
  unfolding option_variant
  option_deserialize d de = do (de', is_some) ← read_byte de; option_variant d (is_some == 0) de'

abbrev pub option : {T : Type 0} → Codec T → Codec (Option T)
option c = record {
  formula = option_formula c.formula;
  ser = record {
    serialize = option_serialize c.formula c.ser;
    size_hint = option_size_hint c.formula c.ser;
  };
  de = record { deserialize = option_deserialize c.formula c.de };
}
