-- ===== src/Array.antt =====
-- src/array.rs: arrays of a length, as the list of their elements.
pub mod Laws
use alkahest.Prelude.{ℕ, zero, suc, Bool, true, false, Option, none, some, List, [], ◌∷◌}
use alkahest.Outcome.{ok, ◌>>=◌}
use alkahest.Formula.{Formula, repeat_size}
use alkahest.Sizes.{Sizes, sizes_zero}
use alkahest.Serialize.{Serialize}
use alkahest.Deserialize.{Deserialize, Deserializer, Read, read_value}
use alkahest.Codec.{Codec}
use alkahest.Slice.{write_array, iter_fast_sizes}

abbrev pub array_formula : ℕ → Formula → Formula
array_formula n f = record f { max_stack_size = repeat_size f.max_stack_size n }

module _ {T : Type 0} (f : Formula) where
  unfoldable pub array_fast_sizes : Bool → Option ℕ → Serialize T → List T → Option Sizes
  array_fast_sizes true (some zero) s vs = some sizes_zero
  array_fast_sizes true (some (suc m)) s vs = iter_fast_sizes f true (some (suc m)) s vs
  array_fast_sizes true none s vs = iter_fast_sizes f true none s vs
  array_fast_sizes false m s vs = iter_fast_sizes f false m s vs

  -- The slots are filled in order; the first argument is their number.
  unfoldable pub array_deserialize : Deserialize T → ℕ → Deserializer → Read (List T)
  array_deserialize d zero de = ok []
  array_deserialize d (suc n) de = do
    (de', v) ← read_value f d de false
    vs ← array_deserialize d n de'
    ok (v ∷ vs)

abbrev pub array : {T : Type 0} → ℕ → Codec T → Codec (List T)
array n c = record {
  formula = array_formula n c.formula;
  ser = record {
    serialize = write_array c.formula c.ser;
    size_hint = array_fast_sizes c.formula c.formula.heapless c.formula.max_stack_size c.ser;
  };
  de = record { deserialize = array_deserialize c.formula c.de n };
}
