-- ===== src/Vlq.antt =====
-- src/vlq.rs: integers of a variable length. The last byte, the header, tells how many bytes stand
-- below it; a value of a `VlqType` is a number below 256 to its width in bytes.
pub mod Laws
use alkahest.Prelude.{
  ℕ, zero, suc, ◌+◌, ◌-◌, ◌*◌, ◌/◌, ◌%◌, ◌^◌, Bool, true, false, Option, none, some, ltb, leb,
  if◌then◌else◌, List, [], ◌∷◌,
}
use alkahest.Prelude.Words.{Bytes}
use alkahest.Outcome.{Outcome, ok, err, panic, ◌>>=◌}
use alkahest.Sizes.{Sizes, with_stack}
use alkahest.Buffer.{Buffer, Write}
use alkahest.Serialize.{write_bytes}
use alkahest.Deserialize.{Deserializer, Read, read_bytes, integer_overflow}

-- `VlqType::less_eq`, `shr_byte_assign` (the value that is left, and the byte), `shl_byte_set` (at a
-- width, none where the shift would overflow).
abbrev pub less_eq : ℕ → ℕ → Bool
less_eq value byte = leb value byte

abbrev pub shr_byte_assign : ℕ → ℕ × ℕ
shr_byte_assign value = (value / 256, value % 256)

unfoldable pub shl_byte_set : ℕ → ℕ → ℕ → Option ℕ
shl_byte_set width value lsb =
    if leb (256 ^ (width - 1)) value then none else some (value * 256 + lsb)

-- Whether the loops stop: what is left of the value fits the header.
unfoldable pub fits_header : ℕ → ℕ → Bool
fits_header tail value = if leb 8 tail then less_eq value 0 else less_eq value 15

-- The loop of `size_hint`, with the number of rounds before `tail` is 63 and it is `unimplemented!`.
unfoldable pub hint_loop : ℕ → ℕ → ℕ → Outcome Unit ℕ
unfolding fits_header
hint_loop zero tail value = if fits_header tail value then ok (tail + 1) else panic
hint_loop (suc left) tail value =
    let rest = hint_loop left (tail + 1) (shr_byte_assign value).0 in
    if fits_header tail value then ok (tail + 1) else rest

unfoldable pub size_hint : ℕ → Outcome Unit Sizes
unfolding hint_loop
size_hint value = do stack ← hint_loop 63 0 value; ok (with_stack stack)

-- `0x80 | tail`, or `(tail << 4) | lsb` with the last byte of the value.
unfoldable pub header_byte : ℕ → ℕ → ℕ
header_byte tail value = if leb 8 tail then 128 + tail else tail * 16 + (shr_byte_assign value).1

-- The loop of `serialize`: the bytes from index `tail` on, the header behind them.
unfoldable pub vlq_bytes : ℕ → ℕ → ℕ → Write Bytes
unfolding fits_header header_byte
vlq_bytes zero tail value =
    if fits_header tail value then ok (header_byte tail value ∷ []) else panic
vlq_bytes (suc left) tail value =
    let (shifted, lsb) = shr_byte_assign value in
    let rest = vlq_bytes left (tail + 1) shifted in
    if fits_header tail value
    then ok (header_byte tail value ∷ [])
    else (rest >>= λ bytes. ok (lsb ∷ bytes))

unfoldable pub serialize : ℕ → Sizes → Buffer → Write (Sizes × Buffer)
unfolding vlq_bytes
serialize value z b = do bytes ← vlq_bytes 63 0 value; write_bytes bytes z b

-- The length of the tail, and the most significant bits.
unfoldable pub read_header : ℕ → Read (ℕ × ℕ)
read_header header =
    if ltb header 128
    then ok (header / 16, header % 16)
    else if ltb header 192
    then ok (header % 64, 0)
    else panic

-- One more byte, where the shifts before it have not overflowed.
unfoldable pub push_byte : ℕ → ℕ → Option ℕ → Option ℕ
unfolding shl_byte_set
push_byte width byte none = none
push_byte width byte (some high) = shl_byte_set width high byte

-- The bytes from the last to the first are shifted in.
unfoldable pub shl_bytes : ℕ → Bytes → ℕ → Option ℕ
unfolding push_byte
shl_bytes width [] value = some value
shl_bytes width (byte ∷ bytes) value = push_byte width byte (shl_bytes width bytes value)

-- `bytes[0]`
abbrev pub first_byte : Bytes → Read ℕ
first_byte [] = panic
first_byte (x ∷ xs) = ok x

abbrev pub no_overflow : Option ℕ → Read ℕ
no_overflow none = err integer_overflow
no_overflow (some value) = ok value

-- At the width of the type that is read.
unfoldable pub deserialize : ℕ → Deserializer → Read ℕ
unfolding read_header shl_bytes
deserialize width de = do
  (de1, header_bytes) ← read_bytes de 1
  header ← first_byte header_bytes
  (tail, msb) ← read_header header
  (_, bytes) ← read_bytes de1 tail
  no_overflow (shl_bytes width bytes msb)
