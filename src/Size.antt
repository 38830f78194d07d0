-- ===== src/Size.antt =====
-- src/size.rs: sizes and addresses as `FixedUsizeType`, the unsigned integer of `size_stack` bytes.
use alkahest.Prelude.{ℕ, ◌<◌, ◌≡◌, ltb, lt→ltb, if◌then◌else◌}
use alkahest.Outcome.{Outcome, ok, panic}
use alkahest.Formula.{usize_limit}

-- The debug assertion, and the cast, which then changes nothing.
unfoldable pub usize_truncate_unchecked : {E : Type 0} → ℕ → Outcome E ℕ
usize_truncate_unchecked value = if ltb value usize_limit then ok value else panic

pub usize_truncate_lem :
    {E : Type 0} (v : ℕ) → v < usize_limit → usize_truncate_unchecked {E = E} v ≡ ok v
unfolding usize_truncate_unchecked
usize_truncate_lem v h = rw (lt→ltb v usize_limit h)
