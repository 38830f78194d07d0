-- ===== src/InPlace.antt =====
-- The reads that update a value in place: `deserialize_in_place` of src/primitive.rs, src/size.rs,
-- src/bytes.rs, src/str.rs, src/tuple.rs, src/option.rs, src/reference.rs, src/vec.rs and
-- src/array.rs, `read_in_place` of src/deserialize.rs and `read_packet_in_place` of src/packet.rs.
-- What a failed call leaves in the place is not kept.
pub mod Laws
pub mod Formulas
use alkahest.Prelude.{
  ℕ, ◌-◌, Bool, true, false, Option, none, some, List, [], ◌∷◌, ◌==◌, ltb, min, if◌then◌else◌,
  length, take,
}
use alkahest.Prelude.Words.{Bytes}
use alkahest.Outcome.{ok, err, ◌>>=◌}
use alkahest.Formula.{Formula, reference_size}
use alkahest.Deserialize.{
  Deserializer, Deserialize, Read, sub, read_usize, read_byte, read_value, deref, read_reference,
  new_unchecked, out_of_bounds, wrong_address,
}

-- `deserialize_in_place`: the place, and what it holds after the call.
pub record InPlace (T : Type 0) : Type 0 where
  pub in_place : T → Deserializer → Read T

-- `*self = ..`: the integers, `bool`, `usize`, byte slices and strings, and a vector, which is cleared
-- first.
abbrev pub overwrite : {T : Type 0} → Deserialize T → InPlace T
overwrite d = record { in_place = λ place de. d.deserialize de }

unfoldable pub place_stack : Option ℕ → Bool → Deserializer → Read (Deserializer × ℕ)
unfolding read_usize
place_stack m true de = ok (de, de.stack)
place_stack (some max_stack) false de = ok (de, max_stack)
place_stack none false de = read_usize de

-- The stack of `deserialize_in_place`.
unfoldable pub in_place_stack : Option ℕ → Bytes → ℕ
in_place_stack none input = length input
in_place_stack (some max_stack) input = min max_stack (length input)

module _ {T : Type 0} (f : Formula) (p : InPlace T) where
  unfoldable pub read_in_place : T → Deserializer → Bool → Read (Deserializer × T)
  unfolding place_stack sub
  read_in_place place de last = do
    (de1, stack) ← place_stack f.max_stack_size last de
    (de2, s) ← sub de1 stack
    value ← p.in_place place s
    ok (de2, value)

  unfoldable pub last_in_place : T → Deserializer → Read T
  unfolding read_in_place
  last_in_place place de = do (_, value) ← read_in_place place de true; ok value

  unfoldable pub ref_in_place : T → Deserializer → Read T
  unfolding deref
  ref_in_place place de = do de' ← deref f de; p.in_place place de'

  unfoldable pub cons_in_place : {R : Type 0} → InPlace R → T × R → Deserializer → Read (T × R)
  unfolding read_in_place
  cons_in_place rest (place, places) de = do
    (de', value) ← read_in_place place de false
    others ← rest.in_place places de'
    ok (value, others)

  -- The variant that the tag byte tells, and the one in the place.
  unfoldable pub some_in_place : Deserialize T → Bool → Option T → Deserializer → Read (Option T)
  unfolding read_in_place
  some_in_place d true place de = ok none
  some_in_place d false (some place) de = do
    (_, value) ← read_in_place place de true
    ok (some value)
  some_in_place d false none de = do (_, value) ← read_value f d de true; ok (some value)

  unfoldable pub option_in_place : Deserialize T → Option T → Deserializer → Read (Option T)
  unfolding some_in_place
  option_in_place d place de = do
    (de', is_some) ← read_byte de
    some_in_place d (is_some == 0) place de'

  -- Element by element of the array in the place.
  unfoldable pub array_in_place : List T → Deserializer → Read (List T)
  unfolding read_in_place
  array_in_place [] de = ok []
  array_in_place (place ∷ places) de = do
    (de', v) ← read_in_place place de false
    vs ← array_in_place places de'
    ok (v ∷ vs)

  unfoldable pub deserialize_in_place : T → Bytes → Read T
  unfolding in_place_stack new_unchecked
  deserialize_in_place place input = do
    de ← new_unchecked (in_place_stack f.max_stack_size input) input
    p.in_place place de

  unfoldable pub deserialize_in_place_with_size : T → Bytes → ℕ → Read T
  unfolding new_unchecked
  deserialize_in_place_with_size place input stack = do
    de ← new_unchecked stack input
    p.in_place place de

  -- What the place holds, and the number of bytes that the packet takes of the input.
  unfoldable pub read_packet_in_place : T → Bytes → Read (T × ℕ)
  unfolding read_reference new_unchecked
  read_packet_in_place place input =
      if ltb (length input) (reference_size f) then err out_of_bounds else (do
        (address, size) ← read_reference f input (length input - reference_size f)
        if ltb address size
            then err wrong_address
            else if ltb (length input) address
            then err out_of_bounds
            else (do
              de ← new_unchecked size (take address input)
              value ← p.in_place place de
              ok (value, address)))
