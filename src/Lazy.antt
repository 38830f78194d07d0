-- ===== src/Lazy.antt =====
-- src/lazy.rs, src/skip.rs and src/as.rs: a value that is read later, a value that is not read, and a
-- formula under another name.
pub mod Laws
use alkahest.Prelude.{ℕ, List}
use alkahest.Outcome.{ok}
use alkahest.Formula.{Formula}
use alkahest.Serialize.{Serialize}
use alkahest.Deserialize.{Deserialize, Deserializer, Read}
use alkahest.Codec.{Codec}
use alkahest.DeIter.{DeIter, into_sized_iter, into_unsized_iter}
use alkahest.InPlace.{InPlace}

pub record Lazy : Type 0 where
  pub de : Deserializer

abbrev pub lazy : Deserialize Lazy
lazy = record { deserialize = λ de. ok (record { de = de }) }

abbrev lazy_in_place : InPlace Lazy
lazy_in_place = record { in_place = λ place de. ok (record place { de = de }) }

-- The same deserializer is read from as often as it is asked for.
unfoldable pub get : {T : Type 0} → Deserialize T → Lazy → Read T
get d value = d.deserialize value.de

unfoldable pub get_in_place : {T : Type 0} → InPlace T → T → Lazy → Read T
get_in_place p place value = p.in_place place value.de

unfoldable pub sized_iter : Formula → Lazy → Read DeIter
unfolding into_sized_iter
sized_iter f value = into_sized_iter f value.de

unfoldable pub iter : Formula → Lazy → Read DeIter
unfolding into_unsized_iter
iter f value = into_unsized_iter f value.de

abbrev pub skip : Deserialize Unit
skip = record { deserialize = λ de. ok tt }

abbrev skip_in_place : InPlace Unit
skip_in_place = record { in_place = λ place de. ok place }

abbrev pub as_formula : Formula → Formula
as_formula f = record {
  max_stack_size = f.max_stack_size;
  exact_size = f.exact_size;
  heapless = f.heapless;
}

abbrev pub as_codec : {T : Type 0} → Codec T → Codec T
as_codec c = record {
  formula = as_formula c.formula;
  ser = record {
    serialize = λ value sizes buffer. c.ser.serialize value sizes buffer;
    size_hint = λ value. c.ser.size_hint value;
  };
  de = record { deserialize = λ de. c.de.deserialize de };
}

abbrev as_in_place : {T : Type 0} → InPlace T → InPlace T
as_in_place p = record { in_place = λ place de. p.in_place place de }
