-- ===== src/Vector/Laws.antt =====
-- The images of vectors and strings.
use alkahest.Prelude.{◌≢◌, Bool, some, List}
use alkahest.Prelude.Words.{Bytes}
use alkahest.Serialize.Wire.{WireFormat}
use alkahest.Codec.{Codec, IsCodec}
use alkahest.Primitive.{str}
use alkahest.Primitive.Laws.{str_wire, str-IsCodec}
use alkahest.Reference.Laws.{ref_wire, ref-IsCodec}
use alkahest.Slice.{slice}
use alkahest.Slice.Laws.{elements_wire}
use alkahest.Slice.Contract.{slice-IsCodec}
use alkahest.Vector.{vec, string}

abbrev pub vec_wire : {T : Type 0} → Codec T → WireFormat T → WireFormat (List T)
vec_wire c w = ref_wire (slice c).formula (elements_wire c.formula w)

-- If the implementations of a formula whose maximum is not 0 keep the contract `IsCodec`, then
-- those of the vector of it keep it.
pub vec-IsCodec :
    {T : Type 0} (c : Codec T) (w : WireFormat T)
    → IsCodec c w
    → c.formula.max_stack_size ≢ some 0
    → IsCodec (vec c) (vec_wire c w)
vec-IsCodec c w laws nonzero =
    ref-IsCodec (slice c) (elements_wire c.formula w) (slice-IsCodec c w laws nonzero)

pub string-IsCodec :
    (is_utf8 : Bytes → Bool)
    → IsCodec (string is_utf8) (ref_wire (str is_utf8).formula (str_wire is_utf8))
string-IsCodec is_utf8 = ref-IsCodec (str is_utf8) (str_wire is_utf8) (str-IsCodec is_utf8)
