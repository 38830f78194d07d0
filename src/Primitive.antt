-- ===== src/Primitive.antt =====
-- src/primitive.rs and src/size.rs: the integers of a width in bytes, `bool` and `usize`; and
-- src/bytes.rs and src/str.rs, whose values are raw bytes. A signed or a floating-point number is
-- given by its bits.
pub mod Laws
pub mod Isize
use alkahest.Prelude.{ℕ, Bool, true, false, not, Option, none, some, ◌==◌, [], ◌∷◌, length}
use alkahest.Prelude.Words.{Bytes, to_le_bytes, from_le_bytes}
use alkahest.Outcome.{ok, err, ◌>>=◌}
use alkahest.Formula.{Formula, size_stack}
use alkahest.Sizes.{Sizes, with_stack}
use alkahest.Size.{usize_truncate_unchecked}
use alkahest.Buffer.{Buffer, Write}
use alkahest.Serialize.{write_bytes}
use alkahest.Deserialize.{
  Deserializer, Read, read_bytes, read_byte, read_all_bytes, deserialize_usize, non_utf8,
}
use alkahest.Codec.{Codec}

abbrev pub fixed_formula : ℕ → Formula
fixed_formula w = record { max_stack_size = some w; exact_size = true; heapless = true }

unfoldable pub int_serialize : ℕ → ℕ → Sizes → Buffer → Write (Sizes × Buffer)
int_serialize w value z b = write_bytes (to_le_bytes w value) z b

unfoldable pub int_deserialize : ℕ → Deserializer → Read ℕ
int_deserialize w de = do (_, input) ← read_bytes de w; ok (from_le_bytes input)

-- The integers of `w` bytes.
abbrev pub int : ℕ → Codec ℕ
int w = record {
  formula = fixed_formula w;
  ser = record { serialize = int_serialize w; size_hint = λ v. some (with_stack w) };
  de = record { deserialize = int_deserialize w };
}

-- `u8::from`
abbrev pub byte_of : Bool → ℕ
byte_of true = 1
byte_of false = 0

unfoldable pub bool_serialize : Bool → Sizes → Buffer → Write (Sizes × Buffer)
bool_serialize value z b = write_bytes (byte_of value ∷ []) z b

unfoldable pub bool_deserialize : Deserializer → Read Bool
bool_deserialize de = do (_, byte) ← read_byte de; ok (not (byte == 0))

abbrev pub bool : Codec Bool
bool = record {
  formula = fixed_formula 1;
  ser = record { serialize = bool_serialize; size_hint = λ v. some (with_stack 1) };
  de = record { deserialize = bool_deserialize };
}

unfoldable pub serialize_usize : ℕ → Sizes → Buffer → Write (Sizes × Buffer)
serialize_usize value z b = do
  truncated ← usize_truncate_unchecked value
  write_bytes (to_le_bytes size_stack truncated) z b

abbrev pub usize : Codec ℕ
usize = record {
  formula = fixed_formula size_stack;
  ser = record { serialize = serialize_usize; size_hint = λ v. some (with_stack size_stack) };
  de = record { deserialize = deserialize_usize };
}

abbrev pub unsized_formula : Formula
unsized_formula = record { max_stack_size = none; exact_size = false; heapless = true }

unfoldable pub bytes_serialize : Bytes → Sizes → Buffer → Write (Sizes × Buffer)
bytes_serialize value z b = write_bytes value z b

-- The formula `Bytes`, for slices of bytes.
abbrev pub bytes : Codec Bytes
bytes = record {
  formula = unsized_formula;
  ser = record { serialize = bytes_serialize; size_hint = λ v. some (with_stack (length v)) };
  de = record { deserialize = read_all_bytes };
}

-- The formula `str`. A string is its bytes; `is_utf8` stands for `core::str::from_utf8`.
unfoldable pub str_deserialize : (Bytes → Bool) → Deserializer → Read Bytes
str_deserialize is_utf8 de = do input ← read_all_bytes de; check (is_utf8 input) input
  where
    check : Bool → Bytes → Read Bytes
    check true input = ok input
    check false input = err non_utf8

abbrev pub str : (Bytes → Bool) → Codec Bytes
str is_utf8 = record {
  formula = unsized_formula;
  ser = record { serialize = bytes_serialize; size_hint = λ v. some (with_stack (length v)) };
  de = record { deserialize = str_deserialize is_utf8 };
}
