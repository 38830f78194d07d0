-- ===== src/Packet.antt =====
-- src/packet.rs: a reference to the value, and then the value. The reference has a fixed size and
-- stands at the front, so that a reader learns from it how long the packet is.
pub mod Front
pub mod Laws
pub mod RoundTrip
use alkahest.Prelude.{
  ℕ, zero, suc, ◌+◌, ◌-◌, Bool, true, false, Option, none, some, [], ◌∷◌, ltb, if◌then◌else◌,
  length, take,
}
use alkahest.Prelude.Words.{Bytes, from_le_bytes}
use alkahest.Outcome.{Outcome, ok, err, panic, ◌>>=◌}
use alkahest.Formula.{Formula, size_stack, reference_size}
use alkahest.Sizes.{Sizes, with_heap}
use alkahest.Buffer.{
  Buffer, Write, dry_buffer, checked_fixed_buffer, slice_buffer, vec_buffer, reserve_heap,
  write_back, slice_bytes,
}
use alkahest.Serialize.{Serialize, write_ref, write_reference, unreachable_err}
use alkahest.Deserialize.{
  Deserialize, Read, read_reference, new_unchecked, out_of_bounds, wrong_address,
}

-- The reference is written to the reserved slice, and what it holds is written back.
unfoldable pub fill_reserved : Formula → ℕ → ℕ → Buffer → Bytes → Write Buffer
fill_reserved f size address b [] = ok b
fill_reserved f size address b (x ∷ xs) = do
  slice ← unreachable_err (write_reference f size address 0 0 (slice_buffer (x ∷ xs)))
  ok (write_back b (slice_bytes slice))

module _ {T : Type 0} (f : Formula) (s : Serialize T) where
  -- The number of bytes that are written, and the buffer.
  unfoldable pub write_packet_into : T → Buffer → Write (ℕ × Buffer)
  unfolding fill_reserved
  write_packet_into value b = do
    (b1, _) ← reserve_heap b 0 0 (reference_size f)
    (size, z, b2) ← write_ref f s value (with_heap (reference_size f)) b1
    (b3, reserved) ← reserve_heap b2 0 0 (reference_size f)
    b4 ← fill_reserved f size z.heap b3 reserved
    ok (z.heap, b4)

  unfoldable pub packet_size : T → Write ℕ
  unfolding write_packet_into
  packet_size value = do (size, _) ← write_packet_into value dry_buffer; ok size

  -- The functions that take a slice or a vector also return what it holds afterwards.
  unfoldable pub write_packet : T → Bytes → Write (ℕ × Bytes)
  unfolding write_packet_into
  write_packet value output = do
    (size, b) ← write_packet_into value (checked_fixed_buffer output)
    ok (size, slice_bytes b)

  unfoldable pub write_packet_unchecked : T → Bytes → Write (ℕ × Bytes)
  unfolding write_packet_into
  write_packet_unchecked value output = do
    (size, b) ← write_packet_into value (slice_buffer output)
    ok (size, slice_bytes b)

  unfoldable pub write_packet_to_vec : T → Bytes → Write (ℕ × Bytes)
  unfolding write_packet_into
  write_packet_to_vec value output = do
    (size, b) ← write_packet_into value (vec_buffer output)
    ok (size, slice_bytes b)

unfoldable pub read_packet_address : Bytes → Option ℕ
read_packet_address input =
    if ltb (length input) size_stack then none else some (from_le_bytes (take size_stack input))

unfoldable pub read_packet_size : Option ℕ → Bytes → Option ℕ
unfolding read_packet_address
read_packet_size none input = read_packet_address input
read_packet_size (some zero) input = some 0
read_packet_size (some (suc m)) input = read_packet_address input

-- The value, and the number of bytes that it takes of the input.
unfoldable pub read_packet : {T : Type 0} → Formula → Deserialize T → Bytes → Read (T × ℕ)
unfolding read_reference new_unchecked
read_packet f d input = if ltb (length input) (reference_size f) then err out_of_bounds else (do
  (address, size) ← read_reference f input (length input - reference_size f)
  if ltb address size
      then err wrong_address
      else if ltb (length input) address
      then err out_of_bounds
      else (do
        de ← new_unchecked size (take address input)
        value ← d.deserialize de
        ok (value, address)))
