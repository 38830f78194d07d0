-- ===== src/Sizes.antt =====
-- `Sizes` of src/serialize.rs: how much of a buffer is heap and how much is stack.
use alkahest.Prelude.{ℕ, ◌+◌}

pub record Sizes : Type 0 where
  pub heap : ℕ
  pub stack : ℕ

abbrev pub sizes_zero : Sizes
sizes_zero = record { heap = 0; stack = 0 }

abbrev pub with_heap : ℕ → Sizes
with_heap h = record { heap = h; stack = 0 }

abbrev pub with_stack : ℕ → Sizes
with_stack s = record { heap = 0; stack = s }

abbrev pub add_heap : Sizes → ℕ → Sizes
add_heap z h = record z { heap = z.heap + h }

abbrev pub add_stack : Sizes → ℕ → Sizes
add_stack z s = record z { stack = z.stack + s }

abbrev pub total : Sizes → ℕ
total z = z.heap + z.stack

-- `Add` and `AddAssign`
abbrev pub add : Sizes → Sizes → Sizes
add a b = record { heap = a.heap + b.heap; stack = a.stack + b.stack }
