-- ===== src/Tests/Places.antt =====
-- A packet of the pair of a number and two bytes, read into a place that holds another pair.
use alkahest.Prelude.{◌≡◌, refl, Bool, true, arith, [], ◌∷◌, ◌++◌, length}
use alkahest.Prelude.Words.{Bytes, to_le_bytes}
use alkahest.Outcome.{ok}
use alkahest.Formula.{reference_size, size_stack, usize_limit}
use alkahest.Packet.{read_packet}
use alkahest.Packet.Laws.{PacketBytes}
use alkahest.InPlace.{read_packet_in_place}
use alkahest.Schema.{Schema, Value, codec, integer, last_field, field}
use alkahest.Schema.Laws.{IsLawful, wire}
use alkahest.Schema.Places.{in_place, read_packet_in_place-read_packet}

abbrev any_bytes : Bytes → Bool
any_bytes bytes = true

abbrev pair : Schema
pair = field (integer 1) (last_field (integer 1))

pair-IsLawful : IsLawful any_bytes pair
unfolding IsLawful
pair-IsLawful = (tt, tt)

abbrev packet : Bytes
packet = 6 ∷ 0 ∷ 0 ∷ 0 ∷ 8 ∷ 7 ∷ []

abbrev old_pair : Value pair
unfolding Value
old_pair = (1, 2)

abbrev new_pair : Value pair
unfolding Value
new_pair = (7, 8)

packet-PacketBytes :
    PacketBytes (codec any_bytes pair).formula (wire any_bytes pair) new_pair packet
unfolding Value codec wire to_le_bytes reference_size size_stack usize_limit
packet-PacketBytes = (
  [],
  8 ∷ 7 ∷ [],
  (
    [],
    7 ∷ [],
    [],
    8 ∷ [],
    (refl, ([], 7 ∷ [], (refl, refl), refl, refl)),
    (refl, (refl, refl)),
    refl,
    refl,
  ),
  refl,
  omega arith,
)

old_pair-IsValue : (wire any_bytes pair).IsValue old_pair
unfolding wire
old_pair-IsValue = (omega arith, omega arith)

new_pair-IsValue : (wire any_bytes pair).IsValue new_pair
unfolding wire
new_pair-IsValue = (omega arith, omega arith)

read_packet_in_place_example :
    (read_packet_in_place
        (codec any_bytes pair).formula
        (in_place any_bytes pair)
        old_pair
        (packet ++ (9 ∷ []))
      ≡ ok (new_pair, length packet))
    × (read_packet_in_place
          (codec any_bytes pair).formula
          (in_place any_bytes pair)
          old_pair
          (packet ++ (9 ∷ []))
        ≡ read_packet (codec any_bytes pair).formula (codec any_bytes pair).de (packet ++ (9 ∷ [])))
read_packet_in_place_example =
    read_packet_in_place-read_packet any_bytes pair pair-IsLawful old_pair new_pair packet (9 ∷ [])
      old_pair-IsValue new_pair-IsValue packet-PacketBytes
