-- ===== src/Tests.antt =====
-- A value of the formula `(u32, Ref<Bytes>)`, and in the child modules the theorems at it.
mod Codecs
mod Slices
mod Packets
mod Fields
mod Buffers
mod Schemas
mod Derived
mod Iterators
mod Folds
mod Later
mod Places
use alkahest.Prelude.{
  ℕ, ◌+◌, ◌≤◌, ◌<◌, ◌≡◌, refl, ◌++◌, Bool, true, false, Option, none, some, length, replicate,
  arith, ◌⊎◌, inl, inr, [], ◌∷◌,
}
use alkahest.Prelude.Words.{Bytes}
use alkahest.Formula.{size_stack, usize_limit, reference_size}
use alkahest.Codec.{Codec, IsCodec}
use alkahest.Codec.RoundTrip.{whole_len}
use alkahest.Serialize.Wire.{WireFormat}
use alkahest.Serialize.Wire.Field.{field}
use alkahest.Primitive.{int, bytes}
use alkahest.Primitive.Laws.{int_wire, int-IsCodec, bytes_wire, bytes-IsCodec}
use alkahest.Reference.{ref}
use alkahest.Reference.Laws.{ref_wire, ref-IsCodec}
use alkahest.Tuple.{tuple_last, tuple_cons}
use alkahest.Tuple.Laws.{cons_wire, tuple_last-IsCodec, tuple_cons-IsCodec}

abbrev name : Codec Bytes
name = ref bytes

abbrev name_wire : WireFormat Bytes
name_wire = ref_wire bytes.formula bytes_wire

name-IsCodec : IsCodec name name_wire
name-IsCodec = ref-IsCodec bytes bytes_wire bytes-IsCodec

abbrev row : Codec (ℕ × Bytes)
row = tuple_cons (int 4) (tuple_last name)

abbrev row_wire : WireFormat (ℕ × Bytes)
row_wire = cons_wire (int 4).formula (int_wire 4) (field name.formula true name_wire)

row-IsCodec : IsCodec row row_wire
row-IsCodec =
    tuple_cons-IsCodec (int 4) (int_wire 4) (int-IsCodec 4) (tuple_last name)
      (field name.formula true name_wire) (tuple_last-IsCodec name name_wire name-IsCodec)

abbrev item : ℕ × Bytes
item = (7, 104 ∷ 105 ∷ [])

item-IsValue : row_wire.IsValue item
item-IsValue = (omega arith, tt)

item-len : whole_len row_wire item ≡ 14
unfolding reference_size size_stack
item-len = refl

item-small : whole_len row_wire item < usize_limit
unfolding usize_limit size_stack
item-small = omega (arith, item-len)

abbrev room : Bytes
room = replicate 16 0
