-- ===== src/Reference.antt =====
-- src/reference.rs: the formula `Ref<F>`. `Vec<F>`, `VecDeque<F>` and `String` of src/vec.rs,
-- src/vec_deque.rs and src/string.rs repeat it, line by line, at `Ref<[F]>` and `Ref<str>`.
pub mod Laws
use alkahest.Prelude.{ℕ, ◌+◌, Bool, true, false, Option, none, some, ◌==◌}
use alkahest.Outcome.{ok, ◌>>=◌}
use alkahest.Formula.{Formula, reference_size}
use alkahest.Sizes.{Sizes, add_stack}
use alkahest.Buffer.{Buffer, Write}
use alkahest.Serialize.{Serialize, write_ref, write_reference, field_size_hint, hint_of_field}
use alkahest.Deserialize.{Deserialize, Deserializer, Read, deref}
use alkahest.Codec.{Codec}

-- `matches!(F::MAX_STACK_SIZE, Some(0))`
abbrev pub is_empty_stack : Option ℕ → Bool
is_empty_stack none = false
is_empty_stack (some m) = m == 0

abbrev pub ref_formula : Formula → Formula
ref_formula f = record {
  max_stack_size = some (reference_size f);
  exact_size = true;
  heapless = is_empty_stack f.max_stack_size;
}

unfoldable pub ref_hint : Formula → Option Sizes → Option Sizes
ref_hint f none = none
ref_hint f (some z) = some (record { heap = z.heap + z.stack; stack = reference_size f })

unfoldable pub ref_serialize :
    {T : Type 0} → Formula → Serialize T → T → Sizes → Buffer → Write (Sizes × Buffer)
unfolding write_ref write_reference reference_size
ref_serialize f s value z b = do
  (size, z', b1) ← write_ref f s value z b
  b2 ← write_reference f size z'.heap z'.heap z'.stack b1
  ok (add_stack z' (reference_size f), b2)

unfoldable pub ref_deserialize : {T : Type 0} → Formula → Deserialize T → Deserializer → Read T
unfolding deref
ref_deserialize f d de = do de' ← deref f de; d.deserialize de'

-- `to_heap(0)` and `add_stack` on the hint of the value.
unfoldable pub ref_size_hint : {T : Type 0} → Formula → Serialize T → T → Option Sizes
unfolding ref_hint field_size_hint
ref_size_hint f s value = ref_hint f (field_size_hint f s value true)

abbrev pub ref : {T : Type 0} → Codec T → Codec T
ref c = record {
  formula = ref_formula c.formula;
  ser = record {
    serialize = ref_serialize c.formula c.ser;
    size_hint = ref_size_hint c.formula c.ser;
  };
  de = record { deserialize = ref_deserialize c.formula c.de };
}
