-- ===== src/Tests/Packets.antt =====
-- The functions of src/packet.rs at concrete values.
use alkahest.Prelude.{
  ℕ, ◌≤◌, ◌<◌, ◌≡◌, ◌≢◌, refl, some, length, replicate, arith, ◌⊎◌, [], ◌∷◌, ◌++◌, some_inj,
}
use alkahest.Prelude.Words.{Bytes, to_le_bytes}
use alkahest.Outcome.{ok, err}
use alkahest.Formula.{usize_limit, size_stack, reference_size}
use alkahest.Buffer.{buffer_exhausted}
use alkahest.Primitive.{int}
use alkahest.Primitive.Laws.{int_wire, int-IsCodec}
use alkahest.Packet.{
  write_packet, write_packet_to_vec, write_packet_unchecked, packet_size, read_packet,
  read_packet_size,
}
use alkahest.Packet.Laws.{PacketBytes, packet_len}
use alkahest.Packet.RoundTrip.{
  Delivers, write_packet-cases, write_packet_to_vec-ok, write_packet_unchecked-ok, packet_size_lem,
  read_packet_lem, read_packet_size-write_packet,
}
use alkahest.Tests.{row, row_wire, row-IsCodec, item, item-IsValue}

packet-len : packet_len row.formula row_wire item ≡ 18
unfolding reference_size size_stack
packet-len = refl

packet-small : packet_len row.formula row_wire item < usize_limit
unfolding usize_limit size_stack
packet-small = omega (arith, packet-len)

abbrev place : Bytes
place = replicate 20 255

write_packet_example :
    ((packet_len row.formula row_wire item ≤ length place)
      × ((r : ℕ × Bytes) × (write_packet row.formula row.ser item place ≡ ok r)
          × Delivers row row_wire item r))
    ⊎ ((length place < packet_len row.formula row_wire item)
        × (write_packet row.formula row.ser item place ≡ err buffer_exhausted))
write_packet_example =
    write_packet-cases row row_wire row-IsCodec item item-IsValue packet-small place

read_packet_size_example :
    (r : ℕ × Bytes) × (write_packet row.formula row.ser item place ≡ ok r)
    × (read_packet_size row.formula.max_stack_size r.1 ≡ some r.0)
read_packet_size_example =
    read_packet_size-write_packet row row_wire row-IsCodec item item-IsValue packet-small place
      (omega (arith, packet-len)) nonzero
  where
    nonzero : row.formula.max_stack_size ≢ some 0
    nonzero e = absurd (omega (arith, some_inj e))

write_packet_to_vec_example :
    (r : ℕ × Bytes) × (write_packet_to_vec row.formula row.ser item [] ≡ ok r)
    × Delivers row row_wire item r
write_packet_to_vec_example =
    write_packet_to_vec-ok row row_wire row-IsCodec item item-IsValue packet-small []

write_packet_unchecked_example :
    (r : ℕ × Bytes) × (write_packet_unchecked row.formula row.ser item place ≡ ok r)
    × Delivers row row_wire item r
write_packet_unchecked_example =
    write_packet_unchecked-ok row row_wire row-IsCodec item item-IsValue packet-small place
      (omega (arith, packet-len))

packet_size_example :
    packet_size row.formula row.ser item ≡ ok (packet_len row.formula row_wire item)
packet_size_example = packet_size_lem row row_wire row-IsCodec item item-IsValue packet-small

abbrev seven : Bytes
seven = 8 ∷ 0 ∷ 0 ∷ 0 ∷ 7 ∷ 0 ∷ 0 ∷ 0 ∷ []

seven-PacketBytes : PacketBytes (int 4).formula (int_wire 4) 7 seven
unfolding usize_limit size_stack reference_size to_le_bytes
seven-PacketBytes = ([], to_le_bytes 4 7, (refl, refl), refl, omega arith)

read_packet_example :
    read_packet (int 4).formula (int 4).de (seven ++ (9 ∷ [])) ≡ ok (7, length seven)
read_packet_example =
    read_packet_lem (int 4) (int_wire 4) (int-IsCodec 4) 7 (omega arith) seven (9 ∷ [])
      seven-PacketBytes
