-- ===== src/Schema.antt =====
-- The formulas that are built from those of src/primitive.rs, src/bytes.rs, src/str.rs, src/tuple.rs,
-- src/option.rs, src/reference.rs, src/vec.rs, src/slice.rs and src/array.rs, as one data type: a
-- Rust type that is a formula is a term of it, with no recursion.
pub mod Laws
pub mod Hostile
pub mod Places
use alkahest.Prelude.{ℕ, Bool, Option, List}
use alkahest.Prelude.Words.{Bytes}
use alkahest.Codec.{Codec}
use alkahest.Primitive.{int, bool, usize, bytes, str}
use alkahest.Tuple.{empty, tuple_last, tuple_cons}
use alkahest.Optional.{option}
use alkahest.Reference.{ref}
use alkahest.Slice.{slice}
use alkahest.Array.{array}

pub data Schema : Type 0 where
  -- an integer of a width in bytes
  integer : ℕ → Schema
  boolean word raw_bytes text unit : Schema
  -- the last field of a tuple, and one more field in front of others
  last_field : Schema → Schema
  field : Schema → Schema → Schema
  optional : Schema → Schema
  -- `Ref`, `[F]` and `[F; N]`; `Vec<F>` is `boxed (elements s)` and `String` is `boxed text`
  boxed : Schema → Schema
  elements : Schema → Schema
  elements_of : ℕ → Schema → Schema

unfoldable pub Value : Schema → Type 0
Value (integer w) = ℕ
Value boolean = Bool
Value word = ℕ
Value raw_bytes = Bytes
Value text = Bytes
Value unit = Unit
Value (last_field s) = Value s
Value (field s r) = Value s × Value r
Value (optional s) = Option (Value s)
Value (boxed s) = Value s
Value (elements s) = List (Value s)
Value (elements_of n s) = List (Value s)

-- `is_utf8` stands for `core::str::from_utf8`.
unfoldable pub codec : (Bytes → Bool) → (s : Schema) → Codec (Value s)
unfolding Value
codec is_utf8 (integer w) = int w
codec is_utf8 boolean = bool
codec is_utf8 word = usize
codec is_utf8 raw_bytes = bytes
codec is_utf8 text = str is_utf8
codec is_utf8 unit = empty
codec is_utf8 (last_field s) = tuple_last (codec is_utf8 s)
codec is_utf8 (field s r) = tuple_cons (codec is_utf8 s) (codec is_utf8 r)
codec is_utf8 (optional s) = option (codec is_utf8 s)
codec is_utf8 (boxed s) = ref (codec is_utf8 s)
codec is_utf8 (elements s) = slice (codec is_utf8 s)
codec is_utf8 (elements_of n s) = array n (codec is_utf8 s)
