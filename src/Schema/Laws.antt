-- ===== src/Schema/Laws.antt =====
-- The wire format of a schema, and the contract of src/serialize.rs and src/deserialize.rs.
use alkahest.Prelude.{◌≡◌, ◌≢◌, ◌∙◌, sym, ◌⊎◌, Bool, true, none, some}
use alkahest.Prelude.Words.{Bytes}
use alkahest.Serialize.Wire.{WireFormat}
use alkahest.Serialize.Wire.Field.{field}
use alkahest.Codec.{IsCodec}
use alkahest.Primitive.Laws.{
  int_wire, bool_wire, usize_wire, bytes_wire, str_wire, int-IsCodec, bool-IsCodec, usize-IsCodec,
  bytes-IsCodec, str-IsCodec,
}
use alkahest.Tuple.Laws.{
  empty_wire, empty-IsCodec, cons_wire, tuple_last-IsCodec, tuple_cons-IsCodec,
}
use alkahest.Optional.Laws.{option_wire, option-IsCodec}
use alkahest.Reference.Laws.{ref_wire, ref-IsCodec}
use alkahest.Slice.Laws.{elements_wire}
use alkahest.Slice.Contract.{slice-IsCodec}
use alkahest.Array.Laws.{array_wire, array-IsCodec}
use alkahest.Schema.{Schema, Value, codec}
use alkahest.Schema.Hostile.{codec-Safe}

module _ (is_utf8 : Bytes → Bool) where
  -- The schemas whose size hints are exact and whose slices have elements with stack bytes.
  unfoldable pub IsLawful : Schema → Type 0
  IsLawful (Schema.integer w) = Unit
  IsLawful Schema.boolean = Unit
  IsLawful Schema.word = Unit
  IsLawful Schema.raw_bytes = Unit
  IsLawful Schema.text = Unit
  IsLawful Schema.unit = Unit
  IsLawful (Schema.last_field s) = IsLawful s
  IsLawful (Schema.field s r) = IsLawful s × IsLawful r
  IsLawful (Schema.optional s) =
      IsLawful s
      × (((codec is_utf8 s).formula.max_stack_size ≡ none)
          ⊎ ((codec is_utf8 s).formula.max_stack_size ≡ some 0))
  IsLawful (Schema.boxed s) = IsLawful s
  IsLawful (Schema.elements s) = IsLawful s × ((codec is_utf8 s).formula.max_stack_size ≢ some 0)
  IsLawful (Schema.elements_of n s) = IsLawful s

  unfoldable pub wire : (s : Schema) → WireFormat (Value s)
  unfolding Value
  wire (Schema.integer w) = int_wire w
  wire Schema.boolean = bool_wire
  wire Schema.word = usize_wire
  wire Schema.raw_bytes = bytes_wire
  wire Schema.text = str_wire is_utf8
  wire Schema.unit = empty_wire
  wire (Schema.last_field s) = field (codec is_utf8 s).formula true (wire s)
  wire (Schema.field s r) = cons_wire (codec is_utf8 s).formula (wire s) (wire r)
  wire (Schema.optional s) = option_wire (wire s)
  wire (Schema.boxed s) = ref_wire (codec is_utf8 s).formula (wire s)
  wire (Schema.elements s) = elements_wire (codec is_utf8 s).formula (wire s)
  wire (Schema.elements_of n s) = array_wire n (codec is_utf8 s).formula (wire s)

  -- For every schema whose options are of values with no maximum or the maximum 0, and whose
  -- slices are of elements whose maximum is not 0: the implementations of the formula keep the
  -- contract `IsCodec`.
  pub codec-IsCodec : (s : Schema) → IsLawful s → IsCodec (codec is_utf8 s) (wire s)
  unfolding IsLawful wire codec Value
  codec-IsCodec (Schema.integer w) h = int-IsCodec w
  codec-IsCodec Schema.boolean h = bool-IsCodec
  codec-IsCodec Schema.word h = usize-IsCodec
  codec-IsCodec Schema.raw_bytes h = bytes-IsCodec
  codec-IsCodec Schema.text h = str-IsCodec is_utf8
  codec-IsCodec Schema.unit h = empty-IsCodec
  codec-IsCodec (Schema.last_field s) h =
      tuple_last-IsCodec (codec is_utf8 s) (wire s) (codec-IsCodec s h)
  codec-IsCodec (Schema.field s r) (h, h') =
      tuple_cons-IsCodec (codec is_utf8 s) (wire s) (codec-IsCodec s h) (codec is_utf8 r) (wire r)
        (codec-IsCodec r h')
  codec-IsCodec (Schema.optional s) (h, hinted) =
      option-IsCodec (codec is_utf8 s) (wire s) (codec-IsCodec s h) hinted
  codec-IsCodec (Schema.boxed s) h = ref-IsCodec (codec is_utf8 s) (wire s) (codec-IsCodec s h)
  codec-IsCodec (Schema.elements s) (h, nonzero) =
      slice-IsCodec (codec is_utf8 s) (wire s) (codec-IsCodec s h) nonzero
  codec-IsCodec (Schema.elements_of n s) h =
      array-IsCodec n (codec is_utf8 s) (wire s) (codec-IsCodec s h)
        (λ x e. let (m, em) = (codec-Safe is_utf8 s).sized x in cc (sym e ∙ em))
