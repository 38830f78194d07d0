-- ===== src/InPlace/Laws.antt =====
-- `read_in_place` of src/deserialize.rs on the image of a field.
use alkahest.Prelude.{
  ℕ, ◌+◌, ◌≤◌, ◌≡◌, refl, ap, ◌++◌, Bool, true, false, Option, none, some, length, arith,
}
use alkahest.Prelude.Words.{Bytes}
use alkahest.Outcome.{ok, ◌>>=◌}
use alkahest.Formula.{Formula}
use alkahest.Serialize.Wire.{WireFormat}
use alkahest.Deserialize.{Deserializer, Deserialize, sub, value_stack, read_value}
use alkahest.Deserialize.Reads.{at_end, IsReader, sub_below}
use alkahest.InPlace.{InPlace, place_stack, read_in_place}

-- The reader that updates one place.
abbrev pub at_place : {T : Type 0} → InPlace T → T → Deserialize T
at_place p place = record { deserialize = p.in_place place }

-- An image is read back into every place that holds a value of the type.
abbrev pub IsPlacer : {T : Type 0} → Formula → InPlace T → WireFormat T → Type 0
IsPlacer f p w = (place : _) → w.IsValue place → IsReader f (at_place p place) w

same_stack :
    (m : Option ℕ) (x : Bool) (de : Deserializer)
    → place_stack m false de ≡ value_stack m x false de
unfolding place_stack value_stack
same_stack none x de = refl
same_stack (some m) true de = refl
same_stack (some m) false de = refl

-- A field that is not the last is found as `read_value` finds it.
pub read_in_place-field :
    {T : Type 0} (f : Formula) (p : InPlace T) (place : T) (de : Deserializer)
    → read_in_place f p place de false ≡ read_value f (at_place p place) de false
unfolding read_in_place read_value
read_in_place-field f p place de =
    ap
      (λ r. r >>= λ (de1, stack).
        sub de1 stack >>= λ (de2, s). p.in_place place s >>= λ value. ok (de2, value))
      (same_stack f.max_stack_size f.exact_size de)

-- The last field is given the whole stack.
pub read_in_place-last :
    {T : Type 0} (f : Formula) (p : InPlace T) (w : WireFormat T) (place : T)
    → IsReader f (at_place p place) w
    → (v : T) (front hb mid sb pre : Bytes) (k : ℕ) → w.IsValue v
    → w.Wire v (length front) hb sb
    → pre ≡ front ++ (hb ++ mid)
    → k ≤ length pre
    → (f.max_stack_size ≡ none → k ≡ 0)
    → (de : Deserializer) × (read_in_place f p place (at_end pre sb k) true ≡ ok (de, v))
unfolding read_in_place place_stack
read_in_place-last f p w place reader v front hb mid sb pre k val q e hk h0 =
    let (de, r) = sub_below pre sb k k (k + length sb) refl (omega arith) hk in
    (de, rw (r, reader.reads v front hb mid sb pre k val q e hk h0))
