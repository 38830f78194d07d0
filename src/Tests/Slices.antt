-- ===== src/Tests/Slices.antt =====
-- Slices and vectors of integers.
use alkahest.Prelude.{◌≡◌, ◌≢◌, refl, some, some_inj, arith, [], ◌∷◌}
use alkahest.Codec.{IsCodec}
use alkahest.Prelude.Words.{to_le_bytes}
use alkahest.Outcome.{ok}
use alkahest.Deserialize.Reads.{at_end}
use alkahest.Primitive.{int, int_serialize}
use alkahest.Primitive.Laws.{int_wire, int-IsCodec}
use alkahest.Slice.{slice, write_slice, slice_deserialize}
use alkahest.Slice.Laws.{elements_wire, slice_reads}
use alkahest.Slice.Contract.{slice-IsCodec}
use alkahest.Slice.Writer.{slice_writer, write_elems, write_elems-write_slice}
use alkahest.Sizes.{sizes_zero}
use alkahest.Buffer.{checked_fixed_buffer, write_stack, write_before_stack, copy_from_slice}
use alkahest.Serialize.{write_field, open_field, close_field, write_bytes}
use alkahest.Array.{array}
use alkahest.Array.Laws.{array_wire, array-IsCodec}
use alkahest.Vector.{vec}
use alkahest.Vector.Laws.{vec_wire, vec-IsCodec}

nonzero : (int 4).formula.max_stack_size ≢ some 0
nonzero e = absurd (omega (arith, some_inj e))

slice-IsCodec_example : IsCodec (slice (int 4)) (elements_wire (int 4).formula (int_wire 4))
slice-IsCodec_example = slice-IsCodec (int 4) (int_wire 4) (int-IsCodec 4) nonzero

vec-IsCodec_example : IsCodec (vec (int 4)) (vec_wire (int 4) (int_wire 4))
vec-IsCodec_example = vec-IsCodec (int 4) (int_wire 4) (int-IsCodec 4) nonzero

one-nonzero : (int 1).formula.max_stack_size ≢ some 0
one-nonzero e = absurd (omega (arith, some_inj e))

slice_reads_example :
    slice_deserialize (int 1).formula (int 1).de (at_end (9 ∷ []) (6 ∷ 5 ∷ []) 0) ≡ ok (5 ∷ 6 ∷ [])
unfolding to_le_bytes
slice_reads_example =
    slice_reads (int 1) (int_wire 1) (int-IsCodec 1) one-nonzero (5 ∷ 6 ∷ []) (9 ∷ []) [] []
      (6 ∷ 5 ∷ []) (9 ∷ []) (omega arith, (omega arith, tt))
      (
        [],
        5 ∷ [],
        [],
        6 ∷ [],
        (refl, ([], 5 ∷ [], (refl, refl), refl, refl)),
        (
          [],
          6 ∷ [],
          [],
          [],
          (refl, ([], 6 ∷ [], (refl, refl), refl, refl)),
          (refl, refl),
          refl,
          refl,
        ),
        refl,
        refl,
      )
      refl

array-IsCodec_example : IsCodec (array 3 (int 4)) (array_wire 3 (int 4).formula (int_wire 4))
array-IsCodec_example = array-IsCodec 3 (int 4) (int_wire 4) (int-IsCodec 4) (λ x e. absurd (cc e))

write_elems-write_slice_example :
    write_elems
      (int 1).formula
      (int 1).ser
      (5 ∷ 6 ∷ [])
      (slice_writer sizes_zero (checked_fixed_buffer (0 ∷ 0 ∷ 0 ∷ [])))
    ≡ ok (record { heap = 0; stack = 2 }, checked_fixed_buffer (0 ∷ 6 ∷ 5 ∷ []))
unfolding write_slice write_field open_field close_field int_serialize write_bytes write_stack
    write_before_stack copy_from_slice to_le_bytes
write_elems-write_slice_example =
    write_elems-write_slice (int 1).formula (int 1).ser (5 ∷ 6 ∷ []) sizes_zero
      (checked_fixed_buffer (0 ∷ 0 ∷ 0 ∷ []))
