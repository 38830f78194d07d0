-- ===== src/Formula.antt =====
-- The constants of the `Formula` trait and the arithmetic on them: src/formula.rs.
use alkahest.Prelude.{ℕ, ◌+◌, ◌*◌, ◌^◌, ◌<◌, Bool, Option, none, some, ltb, if◌then◌else◌, arith}

pub record Formula : Type 0 where
  pub max_stack_size : Option ℕ
  pub exact_size : Bool
  pub heapless : Bool

-- `SIZE_STACK` for the default feature `fixed32`. Proofs keep it shut: they hold for every width.
unfoldable pub size_stack : ℕ
size_stack = 4

pub size_stack_pos : 0 < size_stack
unfolding size_stack
size_stack_pos = omega arith

-- What a `FixedUsizeType` can hold.
unfoldable pub usize_limit : ℕ
unfolding size_stack
usize_limit = 256 ^ size_stack

abbrev pub sum_size : Option ℕ → Option ℕ → Option ℕ
sum_size none b = none
sum_size (some a) none = none
sum_size (some a) (some b) = some (a + b)

abbrev pub max_size : Option ℕ → Option ℕ → Option ℕ
max_size none b = none
max_size (some a) none = none
max_size (some a) (some b) = if ltb b a then some a else some b

abbrev pub repeat_size : Option ℕ → ℕ → Option ℕ
repeat_size none n = none
repeat_size (some a) n = some (a * n)

unfoldable pub reference_size : Formula → ℕ
reference_size f = if f.exact_size then size_stack else size_stack * 2

pub reference_size_pos : (f : Formula) → 0 < reference_size f
unfolding reference_size
reference_size_pos f = ground (arith, size_stack_pos)
