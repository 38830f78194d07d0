-- ===== src/Slice.antt =====
-- src/slice.rs, with `write_slice` of src/serialize.rs, the hint of src/iter.rs and the iterator of
-- src/deserialize.rs, as `Vec` reads it in src/vec.rs. An iterator that is serialized is the list of
-- its items, whose `size_hint` is exact.
pub mod Laws
pub mod Contract
pub mod Writer
use alkahest.Prelude.{
  ℕ, zero, suc, ◌+◌, ◌*◌, ◌/◌, Bool, true, false, Option, none, some, List, [], ◌∷◌, leb, ltb,
  if◌then◌else◌, length,
}
use alkahest.Outcome.{Outcome, ok, err, panic, ◌>>=◌, ◌>>◌, assert}
use alkahest.Formula.{Formula, size_stack}
use alkahest.Sizes.{Sizes, sizes_zero, with_stack}
use alkahest.Buffer.{Buffer, Write}
use alkahest.Serialize.{Serialize, serialize, write_field, field_size_hint, unreachable_err}
use alkahest.Deserialize.{Deserialize, Deserializer, Read, read_value, read_usize}
use alkahest.Tuple.{add_hint}
use alkahest.Codec.{Codec}
use alkahest.Primitive.{usize}

-- `[F]` has a maximum only where it is the count of its elements.
abbrev pub slice_max : Option ℕ → Option ℕ
slice_max none = none
slice_max (some zero) = some size_stack
slice_max (some (suc m)) = none

abbrev pub slice_formula : Formula → Formula
slice_formula f = record {
  max_stack_size = slice_max f.max_stack_size;
  exact_size = false;
  heapless = f.heapless;
}

-- `?` on the sizes so far.
abbrev pub and_then : Option Sizes → (Sizes → Option Sizes) → Option Sizes
and_then none rest = none
and_then (some z) rest = rest z

module _ {T : Type 0} (f : Formula) where
  -- The elements one by one.
  unfoldable pub write_array : Serialize T → List T → Sizes → Buffer → Write (Sizes × Buffer)
  write_array s [] z b = ok (z, b)
  write_array s (v ∷ vs) z b = do (z1, b1) ← write_field f s v z b false; write_array s vs z1 b1

  -- The fold that counts, and checks that an element takes no bytes.
  unfoldable pub count_checked : Serialize T → List T → Write ℕ
  count_checked s [] = ok 0
  count_checked s (v ∷ vs) = do
    _ ← unreachable_err (serialize f s v [])
    n ← count_checked s vs
    ok (n + 1)

  unfoldable pub write_slice_at :
      Option ℕ → Serialize T → List T → Sizes → Buffer → Write (Sizes × Buffer)
  unfolding write_array count_checked
  write_slice_at none s vs z b = write_array s vs z b
  write_slice_at (some zero) s vs z b = do
    assert f.heapless
    count ← count_checked s vs
    write_field usize.formula usize.ser count z b true
  write_slice_at (some (suc m)) s vs z b = write_array s vs z b

  unfoldable pub write_slice : Serialize T → List T → Sizes → Buffer → Write (Sizes × Buffer)
  unfolding write_slice_at
  write_slice s vs z b = write_slice_at f.max_stack_size s vs z b

  -- The sum of the hints of at most `ITER_UPPER` elements.
  unfoldable pub sum_hints : Serialize T → Sizes → List T → Option Sizes
  sum_hints s z [] = some z
  sum_hints s z (v ∷ vs) =
      and_then (add_hint z (field_size_hint f s v false)) (λ y. sum_hints s y vs)

  -- `owned_iter_fast_sizes` and `ref_iter_fast_sizes`, which differ in who owns the items.
  unfoldable pub iter_fast_sizes : Bool → Option ℕ → Serialize T → List T → Option Sizes
  unfolding sum_hints
  iter_fast_sizes true (some zero) s vs = some (with_stack size_stack)
  iter_fast_sizes true (some (suc m)) s vs = some (with_stack (length vs * suc m))
  iter_fast_sizes true none s vs = if leb (length vs) 4 then sum_hints s sizes_zero vs else none
  iter_fast_sizes false m s vs = if leb (length vs) 4 then sum_hints s sizes_zero vs else none

-- `DeIter::stack_empty`
unfoldable pub stack_empty : Option ℕ → ℕ → Bool
stack_empty none stack = ltb stack size_stack
stack_empty (some zero) stack = false
stack_empty (some (suc m)) stack = ltb stack (suc m)

-- `self.read_usize().unwrap_or(0)`
abbrev pub unwrap_or_zero : Deserializer → Read (Deserializer × ℕ) → Read (Deserializer × ℕ)
unwrap_or_zero de (ok r) = ok r
unwrap_or_zero de (err e) = ok (de, 0)
unwrap_or_zero de panic = panic

-- How many elements there can be, and the deserializer of the elements.
unfoldable pub iter_upper : Option ℕ → Deserializer → Read (Deserializer × ℕ)
iter_upper none de = ok (de, de.stack / size_stack)
iter_upper (some zero) de = unwrap_or_zero de (read_usize de)
iter_upper (some (suc m)) de = ok (de, de.stack / suc m)

module _ {T : Type 0} (f : Formula) (d : Deserialize T) where
  -- `next` until there is no item, or one that is an error. The first argument is `upper`.
  unfoldable pub collect : ℕ → Deserializer → Read (List T)
  unfolding stack_empty
  collect zero de = ok []
  collect (suc upper) de =
      if stack_empty f.max_stack_size de.stack
      then ok []
      else (read_value f d de false >>= λ (de', v). collect upper de' >>= λ vs. ok (v ∷ vs))

  unfoldable pub slice_deserialize : Deserializer → Read (List T)
  unfolding iter_upper collect
  slice_deserialize de = do
    (de', upper) ← iter_upper f.max_stack_size de
    assert (leb de'.stack (length de'.input))
    collect upper de'

abbrev pub slice : {T : Type 0} → Codec T → Codec (List T)
slice c = record {
  formula = slice_formula c.formula;
  ser = record {
    serialize = write_slice c.formula c.ser;
    size_hint = iter_fast_sizes c.formula c.formula.heapless c.formula.max_stack_size c.ser;
  };
  de = record { deserialize = slice_deserialize c.formula c.de };
}
