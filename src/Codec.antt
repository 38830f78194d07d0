-- ===== src/Codec.antt =====
-- A formula with its implementations of `Serialize` and `Deserialize` for one type, as the generic
-- functions of src/serialize.rs, src/deserialize.rs and src/packet.rs take them, and the contract
-- that ties the two together.
pub mod RoundTrip
pub mod Capacity
use alkahest.Prelude.{ℕ, ◌≡◌, refl, Bool, true, false, Option, none, some, le→leb, arith}
use alkahest.Formula.{Formula}
use alkahest.Sizes.{Sizes}
use alkahest.Serialize.{Serialize, hint_asserted}
use alkahest.Serialize.Wire.{WireFormat, IsSized, IsWriter}
use alkahest.Deserialize.{Deserialize}
use alkahest.Deserialize.Reads.{IsReader}

pub record Codec (T : Type 0) : Type 0 where
  pub formula : Formula
  pub ser : Serialize T
  pub de : Deserialize T

-- Both implementations agree with one wire format, and its lengths with the formula's constants.
pub record IsCodec {T : Type 0} (c : Codec T) (w : WireFormat T) : Type 0 where
  pub sized : IsSized c.formula w
  pub writer : IsWriter c.ser w
  pub reader : IsReader c.formula c.de w

-- The assertion of `field_size_hint` holds for every codec that keeps the contract.
module _ {T : Type 0} (c : Codec T) (w : WireFormat T) (laws : IsCodec c w) where
  hint_asserted_lem :
      (v : T) (last : Bool)
      → w.IsValue v
      → hint_asserted c.formula.max_stack_size last (c.ser.size_hint v) ≡ true
  unfolding hint_asserted
  hint_asserted_lem v last val = within c.formula.max_stack_size last (c.ser.size_hint v) refl refl
    where
      within :
          (m : Option ℕ) (last : Bool) (o : Option Sizes)
          → c.formula.max_stack_size ≡ m
          → c.ser.size_hint v ≡ o
          → hint_asserted m last o ≡ true
      within none last o em eo = refl
      within (some m) true o em eo = refl
      within (some m) false none em eo = refl
      within (some m) false (some z) em eo =
          le→leb z.stack m
            (omega (arith, laws.sized.bounded v m val em, (laws.writer.hint v z val eo).1))
