-- ===== src/Serialize/Wire.antt =====
-- The contract between `Serialize` and `Deserialize`: which bytes stand for a value on the heap and
-- on the stack, and what a `Serialize` implementation must do to keep it.
pub mod Field
pub mod Reference
pub mod Address
use alkahest.Prelude.{
  ℕ, ◌+◌, ◌≤◌, ◌<◌, ◌≡◌, refl, ◌++◌, Bool, true, false, Option, none, some, length, arith,
}
use alkahest.Prelude.Words.{Bytes, to_le_bytes}
use alkahest.Formula.{Formula, size_stack, usize_limit}
use alkahest.Sizes.{Sizes, total}
use alkahest.Buffer.{Buffer}
use alkahest.Buffer.Holds.{Frame, Holds, Ensures}
use alkahest.Serialize.{Serialize}

-- `Wire v a hb sb`: from heap address `a` on, the heap bytes `hb` and the stack bytes `sb`, as they
-- stand in memory, are an image of `v`. `IsValue` holds of the values of the Rust type.
pub record WireFormat (T : Type 0) : Type 1 where
  pub IsValue : T → Type 0
  pub heap_len : T → ℕ
  pub stack_len : T → ℕ
  pub Wire : T → ℕ → Bytes → Bytes → Type 0
  pub lengths :
      (v : T) (a : ℕ) (hb sb : Bytes)
      → Wire v a hb sb
      → (length hb ≡ heap_len v) × (length sb ≡ stack_len v)

-- The value has been written behind the heap and before the stack.
abbrev pub Written :
    {T : Type 0} → WireFormat T → T → Sizes → Bytes → Bytes → Frame → Sizes × Buffer → Type 0
Written w v z H S k (z', b') =
    (hb : Bytes) × (sb : Bytes) × w.Wire v (length H) hb sb
    × (z'.heap ≡ z.heap + length hb)
    × (z'.stack ≡ z.stack + length sb)
    × Holds k b' z' (H ++ hb) (sb ++ S)

-- The lengths of an image are as the constants of the formula promise.
pub record IsSized {T : Type 0} (f : Formula) (w : WireFormat T) : Type 0 where
  pub bounded : (v : T) (m : ℕ) → w.IsValue v → f.max_stack_size ≡ some m → w.stack_len v ≤ m
  pub exact : (v : T) → w.IsValue v → f.exact_size ≡ true → f.max_stack_size ≡ some (w.stack_len v)
  -- A formula with no stack bytes uses no heap either, as `write_slice` asserts.
  pub flat : (v : T) → w.IsValue v → f.max_stack_size ≡ some 0 → w.heap_len v ≡ 0
  pub heap_free : (v : T) → w.IsValue v → f.heapless ≡ true → w.heap_len v ≡ 0

-- `serialize` writes an image into every buffer that has room, and the hint is its exact size.
pub record IsWriter {T : Type 0} (s : Serialize T) (w : WireFormat T) : Type 0 where
  pub writes :
      (v : T) (k : Frame) (b : Buffer) (z : Sizes) (H S : Bytes)
      → w.IsValue v
      → Holds k b z H S
      → Ensures k
          (total z + (w.heap_len v + w.stack_len v))
          (Written w v z H S k)
          (s.serialize v z b)
  pub hint :
      (v : T) (z : Sizes)
      → w.IsValue v
      → s.size_hint v ≡ some z
      → (z.heap ≡ w.heap_len v) × (z.stack ≡ w.stack_len v)
