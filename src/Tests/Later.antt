-- ===== src/Tests/Later.antt =====
-- A packet of two bytes that is read as `Lazy`.
use alkahest.Prelude.{ℕ, ◌<◌, ◌≡◌, ◌≢◌, some, some_inj, arith, [], ◌∷◌}
use alkahest.Prelude.Words.{Bytes}
use alkahest.Outcome.{ok}
use alkahest.Formula.{usize_limit, size_stack, reference_size}
use alkahest.Packet.{write_packet_to_vec, read_packet}
use alkahest.Packet.Laws.{packet_len}
use alkahest.Primitive.{int}
use alkahest.Primitive.Laws.{int_wire, int-IsCodec}
use alkahest.Slice.{slice}
use alkahest.Slice.Laws.{elements_wire}
use alkahest.Lazy.{Lazy, lazy, get}
use alkahest.Lazy.Laws.{iterated, write_packet-iterated}

nonzero : (int 1).formula.max_stack_size ≢ some 0
nonzero e = absurd (omega (arith, some_inj e))

small :
    packet_len (slice (int 1)).formula (elements_wire (int 1).formula (int_wire 1)) (5 ∷ 6 ∷ [])
    < usize_limit
unfolding usize_limit reference_size size_stack
small = omega arith

write_packet-iterated_example :
    (r : ℕ × Bytes) × (value : Lazy) × (write_packet_to_vec
        (slice (int 1)).formula
        (slice (int 1)).ser
        (5 ∷ 6 ∷ [])
        []
      ≡ ok r)
    × (read_packet (slice (int 1)).formula lazy r.1 ≡ ok (value, r.0))
    × (get (slice (int 1)).de value ≡ ok (5 ∷ 6 ∷ []))
    × (iterated (int 1).formula (int 1).de value ≡ ok (some (ok (5 ∷ 6 ∷ []))))
write_packet-iterated_example =
    write_packet-iterated (int 1) (int_wire 1) (int-IsCodec 1) (5 ∷ 6 ∷ []) [] nonzero
      (omega arith, (omega arith, tt)) small
