-- ===== src/Primitive/Isize.antt =====
-- The formula `isize` of src/size.rs. A negative number is written in two's complement, and rejected
-- where it is read, by the check of builds with debug assertions.
use alkahest.Prelude.{
  ℕ, suc, ◌-◌, ◌*◌, ◌/◌, ◌<◌, ◌≤◌, ◌≡◌, ◌∙◌, sym, ap, ltb, lt→ltb, le→ltb_false, if◌then◌else◌,
  some, arith,
}
use alkahest.Prelude.Words.{Bytes, to_le_bytes, from_le_bytes, from-to_le_bytes, length-to_le_bytes}
use alkahest.Outcome.{Outcome, ok, err, panic, ◌>>=◌}
use alkahest.Formula.{size_stack, usize_limit}
use alkahest.Sizes.{Sizes, with_stack}
use alkahest.Buffer.{Buffer, Write}
use alkahest.Serialize.{write_bytes}
use alkahest.Deserialize.{Deserializer, Read, read_bytes, invalid_isize}
use alkahest.Deserialize.Reads.{at_end, read_bytes-at_end}
use alkahest.Codec.{Codec}
use alkahest.Primitive.{fixed_formula}

pub data ℤ : Type 0 where
  pos negsuc : ℕ → ℤ

-- The numbers below it have the highest bit of a `FixedIsizeType` unset.
unfoldable pub isize_limit : ℕ
unfolding usize_limit
isize_limit = usize_limit / 2

-- The debug assertion, and the cast, which keeps the low bits.
unfoldable pub isize_truncate_unchecked : {E : Type 0} → ℤ → Outcome E ℕ
unfolding isize_limit
isize_truncate_unchecked (pos n) = if ltb n isize_limit then ok n else panic
isize_truncate_unchecked (negsuc n) = if ltb n isize_limit then ok (usize_limit - suc n) else panic

unfoldable pub serialize_isize : ℤ → Sizes → Buffer → Write (Sizes × Buffer)
unfolding isize_truncate_unchecked
serialize_isize value z b = do
  truncated ← isize_truncate_unchecked value
  write_bytes (to_le_bytes size_stack truncated) z b

-- `usize::try_from(value)` fails for the numbers with the highest bit set.
unfoldable pub from_isize : ℕ → Read ℤ
unfolding isize_limit
from_isize bits = if ltb bits isize_limit then ok (pos bits) else err (invalid_isize bits)

unfoldable pub deserialize_isize : Deserializer → Read ℤ
unfolding read_bytes from_isize
deserialize_isize de = do (_, input) ← read_bytes de size_stack; from_isize (from_le_bytes input)

abbrev pub isize : Codec ℤ
isize = record {
  formula = fixed_formula size_stack;
  ser = record { serialize = serialize_isize; size_hint = λ v. some (with_stack size_stack) };
  de = record { deserialize = deserialize_isize };
}

-- The bytes of a number that a `FixedIsizeType` holds are read back if it is not negative, and else
-- rejected.
reads_bits :
    (pre : Bytes) (bits : ℕ)
    → bits < usize_limit
    → deserialize_isize (at_end pre (to_le_bytes size_stack bits) 0) ≡ from_isize bits
unfolding deserialize_isize usize_limit
reads_bits pre bits h =
    rw
      (read_bytes-at_end pre (to_le_bytes size_stack bits) 0 size_stack
        (sym (length-to_le_bytes size_stack bits)))
      (ap from_isize (from-to_le_bytes size_stack bits h))

half : isize_limit * 2 ≤ usize_limit
unfolding isize_limit
half = omega arith

deserialize_isize-pos :
    (pre : Bytes) (n : ℕ)
    → n < isize_limit
    → deserialize_isize (at_end pre (to_le_bytes size_stack n) 0) ≡ ok (pos n)
unfolding from_isize
deserialize_isize-pos pre n h = reads_bits pre n (omega (arith, half)) ∙ rw (lt→ltb n isize_limit h)

deserialize_isize-negsuc :
    (pre : Bytes) (n : ℕ)
    → n < isize_limit
    → deserialize_isize (at_end pre (to_le_bytes size_stack (usize_limit - suc n)) 0)
      ≡ err (invalid_isize (usize_limit - suc n))
unfolding from_isize
deserialize_isize-negsuc pre n h =
    reads_bits pre (usize_limit - suc n) (omega (arith, half))
    ∙ rw (le→ltb_false (usize_limit - suc n) isize_limit (omega (arith, half)))
