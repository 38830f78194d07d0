-- ===== src/Tests/Codecs.antt =====
-- The entry points of src/serialize.rs, and the formulas, at concrete values.
use alkahest.Prelude.{
  ℕ, suc, ◌≤◌, ◌<◌, ◌≡◌, refl, Bool, true, false, length, replicate, arith, ◌⊎◌, inl, [], ◌∷◌, ltb,
}
use alkahest.Prelude.Words.{Bytes}
use alkahest.Outcome.{ok, err}
use alkahest.Sizes.{Sizes, with_stack}
use alkahest.Buffer.{Buffer, buffer_exhausted}
use alkahest.Serialize.{
  serialize, serialize_or_size, serialize_to_vec, serialize_unchecked, serialized_size, write_bytes,
}
use alkahest.Serialize.Wire.Field.{field}
use alkahest.Deserialize.Reads.{at_end}
use alkahest.Codec.{IsCodec}
use alkahest.Codec.RoundTrip.{whole_len, Decodes}
use alkahest.Codec.Capacity.{
  serialize-fits, serialize-exhausted, serialize_or_size_lem, serialize_to_vec-ok,
  serialize_unchecked-ok, serialized_size_lem,
}
use alkahest.Primitive.{int, bytes, str}
use alkahest.Primitive.Laws.{
  int_wire, int-IsCodec, bytes_wire, bytes-IsCodec, str_wire, str-IsCodec,
}
use alkahest.Reference.{ref}
use alkahest.Reference.Laws.{ref_wire, ref-IsCodec}
use alkahest.Tuple.{tuple_last, tuple_cons}
use alkahest.Tuple.Laws.{cons_wire, tuple_last-IsCodec, tuple_cons-IsCodec}
use alkahest.Optional.{option}
use alkahest.Optional.Laws.{option_wire, option-IsCodec}
use alkahest.Vlq
use alkahest.Vlq.Laws.{serialize-deserialize, at_width}
use alkahest.Tests.{
  name, name_wire, name-IsCodec, row, row_wire, row-IsCodec, item, item-IsValue, item-len,
  item-small, room,
}

serialize-fits_example :
    (r : ℕ × ℕ × Bytes) × (serialize row.formula row.ser item room ≡ ok r)
    × Decodes row row_wire item r
serialize-fits_example =
    serialize-fits row row_wire row-IsCodec item item-IsValue item-small room
      (omega (arith, item-len))

serialize-exhausted_example :
    serialize row.formula row.ser item (replicate 9 0) ≡ err buffer_exhausted
serialize-exhausted_example =
    serialize-exhausted row row_wire row-IsCodec item item-IsValue item-small (replicate 9 0)
      (omega (arith, item-len))

serialize_or_size_example :
    ((whole_len row_wire item ≤ length room)
      × ((r : ℕ × ℕ × Bytes) × (serialize_or_size row.formula row.ser item room ≡ ok r)
          × Decodes row row_wire item r))
    ⊎ ((length room < whole_len row_wire item)
        × (serialize_or_size row.formula row.ser item room
            ≡ err (record { required = whole_len row_wire item })))
serialize_or_size_example =
    serialize_or_size_lem row row_wire row-IsCodec item item-IsValue item-small room

serialize_to_vec_example :
    (r : ℕ × ℕ × Bytes) × (serialize_to_vec row.formula row.ser item [] ≡ ok r)
    × Decodes row row_wire item r
serialize_to_vec_example =
    serialize_to_vec-ok row row_wire row-IsCodec item item-IsValue item-small []

serialize_unchecked_example :
    (r : ℕ × ℕ × Bytes) × (serialize_unchecked row.formula row.ser item room ≡ ok r)
    × Decodes row row_wire item r
serialize_unchecked_example =
    serialize_unchecked-ok row row_wire row-IsCodec item item-IsValue item-small room
      (omega (arith, item-len))

serialized_size_example :
    serialized_size row.formula row.ser item ≡ ok (whole_len row_wire item, row_wire.stack_len item)
serialized_size_example = serialized_size_lem row row_wire row-IsCodec item item-IsValue item-small

ref-IsCodec_example : IsCodec (ref row) (ref_wire row.formula row_wire)
ref-IsCodec_example = ref-IsCodec row row_wire row-IsCodec

tuple_cons-IsCodec_example :
    IsCodec
      (tuple_cons name (tuple_last (int 4)))
      (cons_wire name.formula name_wire (field (int 4).formula true (int_wire 4)))
tuple_cons-IsCodec_example =
    tuple_cons-IsCodec name name_wire name-IsCodec (tuple_last (int 4))
      (field (int 4).formula true (int_wire 4))
      (tuple_last-IsCodec (int 4) (int_wire 4) (int-IsCodec 4))

tuple_last-IsCodec_example : IsCodec (tuple_last name) (field name.formula true name_wire)
tuple_last-IsCodec_example = tuple_last-IsCodec name name_wire name-IsCodec

option-IsCodec_example : IsCodec (option bytes) (option_wire bytes_wire)
option-IsCodec_example = option-IsCodec bytes bytes_wire bytes-IsCodec (inl refl)

int-IsCodec_example : IsCodec (int 8) (int_wire 8)
int-IsCodec_example = int-IsCodec 8

-- A decoder that takes the ASCII strings only.
is_ascii : Bytes → Bool
is_ascii [] = true
is_ascii (x ∷ xs) = elim (ltb x 128) [ true ↦ is_ascii xs | false ↦ false ]

str-IsCodec_example : IsCodec (str is_ascii) (str_wire is_ascii)
str-IsCodec_example = str-IsCodec is_ascii

serialize-deserialize_example :
    (out : Bytes) × (Vlq.size_hint 70000 ≡ ok (with_stack (length out)))
    × ((z : Sizes) (b : Buffer) → Vlq.serialize 70000 z b ≡ write_bytes out z b)
    × ((w k : ℕ) (pre : Bytes)
        → Vlq.deserialize (suc w) (at_end pre out k) ≡ at_width (suc w) 70000)
serialize-deserialize_example = serialize-deserialize 70000 (omega arith)
