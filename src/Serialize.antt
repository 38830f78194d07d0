-- ===== src/Serialize.antt =====
-- src/serialize.rs: the `Serialize` trait and the functions that its implementations are made of.
pub mod Wire
use alkahest.Prelude.{
  ℕ, ◌+◌, ◌*◌, Bool, true, false, Option, none, some, [], ◌∷◌, leb, ltb, ◌==◌, if◌then◌else◌,
  length, replicate,
}
use alkahest.Prelude.Words.{Bytes, to_le_bytes}
use alkahest.Outcome.{Outcome, ok, err, panic, ◌>>=◌, ◌>>◌, assert, checked_sub}
use alkahest.Formula.{Formula, size_stack}
use alkahest.Size.{usize_truncate_unchecked}
use alkahest.Sizes.{Sizes, sizes_zero, with_heap, with_stack, add_stack, total}
use alkahest.Buffer.{
  Buffer, dry_buffer, checked_fixed_buffer, slice_buffer, maybe_fixed_buffer, vec_buffer, Write,
  write_stack, pad_stack, move_to_heap, reserve_heap, write_back, slice_bytes, BufferExhausted,
}

-- `Serialize<F> for T`: the formula's constants stand in a `Formula` beside it. `sizes: &mut Sizes`
-- and the buffer are passed in and returned.
pub record Serialize (T : Type 0) : Type 0 where
  pub serialize : T → Sizes → Buffer → Write (Sizes × Buffer)
  pub size_hint : T → Option Sizes

-- `Sizes::to_heap`: the length that is moved, and the new sizes.
unfoldable pub to_heap : {E : Type 0} → Sizes → ℕ → Outcome E (ℕ × Sizes)
unfolding checked_sub
to_heap z until = do
  len ← checked_sub z.stack until
  ok (len, record { heap = z.heap + len; stack = until })

-- `Option::unwrap`
abbrev pub unwrap : {E A : Type 0} → Option A → Outcome E A
unwrap none = panic
unwrap (some a) = ok a

unfoldable pub write_bytes : Bytes → Sizes → Buffer → Write (Sizes × Buffer)
write_bytes bytes z b = do
  b' ← write_stack b z.heap z.stack bytes
  ok (add_stack z (length bytes), b')

unfoldable pub write_reference : Formula → ℕ → ℕ → ℕ → ℕ → Buffer → Write Buffer
unfolding usize_truncate_unchecked
write_reference f size address heap stack b = do
  address' ← usize_truncate_unchecked address
  size' ← usize_truncate_unchecked size
  if f.exact_size
      then (do
        max_stack ← unwrap f.max_stack_size
        max_stack' ← usize_truncate_unchecked max_stack
        assert (size' == max_stack')
        write_stack b heap stack (to_le_bytes size_stack address'))
      else (do
        b' ← write_stack b heap stack (to_le_bytes size_stack size')
        write_stack b' heap (stack + size_stack) (to_le_bytes size_stack address'))

-- The size of an unsized field that is not the last is written before it is known.
unfoldable pub open_field : Option ℕ → Bool → Sizes → Buffer → Write (Sizes × Buffer)
open_field none false z b = do
  b' ← write_stack b z.heap z.stack (replicate size_stack 0)
  ok (add_stack z size_stack, b')
open_field none true z b = ok (z, b)
open_field (some max_stack) last z b = ok (z, b)

-- `if res.is_err() { unreachable!(..) }`
abbrev pub unreachable_err : {A : Type 0} → Write A → Write A
unreachable_err (ok a) = ok a
unreachable_err (err e) = panic
unreachable_err panic = panic

unfoldable pub close_field : Option ℕ → Bool → Bool → ℕ → Sizes → Buffer → Write (Sizes × Buffer)
unfolding usize_truncate_unchecked checked_sub
close_field none exact false old_stack z b = do
  used ← checked_sub z.stack old_stack
  size ← usize_truncate_unchecked used
  at ← checked_sub old_stack size_stack
  b' ← unreachable_err (write_stack b z.heap at (to_le_bytes size_stack size))
  ok (z, b')
close_field none exact true old_stack z b = ok (z, b)
close_field (some max_stack) false false old_stack z b = do
  used ← checked_sub z.stack old_stack
  assert (leb used max_stack)
  pad ← checked_sub (old_stack + max_stack) z.stack
  b' ← pad_stack b z.heap z.stack pad
  ok (record z { stack = old_stack + max_stack }, b')
close_field (some max_stack) false true old_stack z b = do
  used ← checked_sub z.stack old_stack
  assert (leb used max_stack)
  ok (z, b)
close_field (some max_stack) true last old_stack z b = do
  used ← checked_sub z.stack old_stack
  assert (used == max_stack)
  ok (z, b)

module _ {T : Type 0} (f : Formula) (s : Serialize T) where
  unfoldable pub write_field : T → Sizes → Buffer → Bool → Write (Sizes × Buffer)
  write_field value z b last = do
    (z1, b1) ← open_field f.max_stack_size last z b
    (z2, b2) ← s.serialize value z1 b1
    close_field f.max_stack_size f.exact_size last z1.stack z2 b2

  unfoldable pub write_ref_slow : T → Sizes → Buffer → Write (ℕ × Sizes × Buffer)
  unfolding to_heap checked_sub
  write_ref_slow value z b = do
    (z1, b1) ← write_field value z b true
    (len, z2) ← to_heap z1 z.stack
    heap ← checked_sub z2.heap len
    b2 ← move_to_heap b1 heap (z2.stack + len) len
    ok (len, z2, b2)

  -- The reserved slice is a buffer of its own, on which the value is serialized; a failure there is
  -- `expect`ed not to be.
  unfoldable pub write_ref_reserved :
      T → Sizes → Sizes → Buffer → Bytes → Write (ℕ × Sizes × Buffer)
  write_ref_reserved value promised z b region = do
    (reserved, slice) ← unreachable_err (s.serialize value (with_heap z.heap) (slice_buffer region))
    assert (reserved.heap == z.heap + promised.heap)
    assert (reserved.stack == promised.stack)
    ok (reserved.stack, record z { heap = total reserved }, write_back b (slice_bytes slice))

  unfoldable pub write_ref_into : T → Sizes → Sizes → Buffer → Bytes → Write (ℕ × Sizes × Buffer)
  write_ref_into value promised z b [] = do
    (len, z', _) ← write_ref_slow value z dry_buffer
    ok (len, z', b)
  write_ref_into value promised z b (x ∷ xs) = write_ref_reserved value promised z b (x ∷ xs)

  unfoldable pub write_ref_hinted : Option Sizes → T → Sizes → Buffer → Write (ℕ × Sizes × Buffer)
  write_ref_hinted none value z b = write_ref_slow value z b
  write_ref_hinted (some promised) value z b = do
    (b', region) ← reserve_heap b z.heap z.stack (total promised)
    write_ref_into value promised z b' region

  unfoldable pub write_ref : T → Sizes → Buffer → Write (ℕ × Sizes × Buffer)
  unfolding write_ref_hinted write_ref_into write_ref_reserved write_ref_slow write_field
  write_ref value z b = write_ref_hinted (s.size_hint value) value z b

  -- The bytes written, the size of the root, and the buffer.
  unfoldable pub serialize_into : T → Buffer → Write (ℕ × ℕ × Buffer)
  unfolding write_ref
  serialize_into value b = do (size, z, b') ← write_ref value sizes_zero b; ok (z.heap, size, b')

  -- The functions that take a slice or a vector also return what it holds afterwards.
  unfoldable pub serialize : T → Bytes → Write (ℕ × ℕ × Bytes)
  unfolding serialize_into
  serialize value output = do
    (size, root, b) ← serialize_into value (checked_fixed_buffer output)
    ok (size, root, slice_bytes b)

  unfoldable pub serialize_unchecked : T → Bytes → Write (ℕ × ℕ × Bytes)
  unfolding serialize_into
  serialize_unchecked value output = do
    (size, root, b) ← serialize_into value (slice_buffer output)
    ok (size, root, slice_bytes b)

  unfoldable pub serialize_to_vec : T → Bytes → Write (ℕ × ℕ × Bytes)
  unfolding serialize_into
  serialize_to_vec value output = do
    (size, root, b) ← serialize_into value (vec_buffer output)
    ok (size, root, slice_bytes b)

  unfoldable pub serialized_size : T → Write (ℕ × ℕ)
  serialized_size value = do (z, _) ← s.serialize value sizes_zero dry_buffer; ok (total z, z.stack)

-- `BufferSizeRequired`
pub record BufferSizeRequired : Type 0 where
  pub required : ℕ

-- `Err(never) => match never {}`: an infallible buffer returns no error.
abbrev pub never : {E A : Type 0} → Write A → Outcome E A
never (ok a) = ok a
never (err e) = panic
never panic = panic

-- `*exhausted` after the call.
abbrev pub is_exhausted : Buffer → Bool
is_exhausted (maybe_fixed_buffer buf e) = e
is_exhausted _ = false

unfoldable pub serialize_or_size :
    {T : Type 0} → Formula → Serialize T → T → Bytes → Outcome BufferSizeRequired (ℕ × ℕ × Bytes)
unfolding serialize_into
serialize_or_size f s value output = do
  (size, root, b) ← never (serialize_into f s value (maybe_fixed_buffer output false))
  if is_exhausted b then err (record { required = size }) else ok (size, root, slice_bytes b)

-- The hint for a field: what `write_field` takes of heap and stack, its size prefix left out.
unfoldable pub hint_of_field : Option ℕ → Bool → Option Sizes → Option Sizes
hint_of_field none false z = none
hint_of_field none true z = z
hint_of_field (some max_stack) true z = z
hint_of_field (some max_stack) false none = none
hint_of_field (some max_stack) false (some z) = some (record { heap = z.heap; stack = max_stack })

unfoldable pub field_size_hint : {T : Type 0} → Formula → Serialize T → T → Bool → Option Sizes
unfolding hint_of_field
field_size_hint f s value last = hint_of_field f.max_stack_size last (s.size_hint value)

-- The debug assertion of `field_size_hint`, which a hint cannot return.
unfoldable pub hint_asserted : Option ℕ → Bool → Option Sizes → Bool
hint_asserted (some max_stack) false (some z) = leb z.stack max_stack
hint_asserted (some max_stack) false none = true
hint_asserted (some max_stack) true z = true
hint_asserted none last z = true

unfoldable pub fast_sizes : Bool → Bool → Option ℕ → Option Sizes
fast_sizes true true (some max_stack) = some (with_stack max_stack)
fast_sizes true true none = none
fast_sizes true false m = none
fast_sizes false h m = none

unfoldable pub formula_fast_sizes : Formula → Option Sizes
unfolding fast_sizes
formula_fast_sizes f = fast_sizes f.exact_size f.heapless f.max_stack_size
