-- ===== src/Prelude/Words.antt =====
-- Little-endian bytes of a number: `to_le_bytes` and `from_le_bytes` of the unsigned integers.
use Prim.Native.Nat.{ℕ, zero, suc, ◌+◌, ◌*◌, ◌/◌, ◌%◌, ◌^◌, ◌<◌}
use mathlib.Core.Path.{◌≡◌, refl, ap}
use mathlib.Core.List.{List, [], ◌∷◌}
use native.Mathlib.Omega.{arith}
use native.Mathlib.Nat.{pow-suc}
use alkahest.Prelude.Lists.{length}

-- A byte is a number below 256.
abbrev pub Bytes : Type 0
Bytes = List ℕ

-- The first argument is the width in bytes.
unfoldable pub to_le_bytes : ℕ → ℕ → Bytes
to_le_bytes zero v = []
to_le_bytes (suc w) v = (v % 256) ∷ to_le_bytes w (v / 256)

unfoldable pub from_le_bytes : Bytes → ℕ
from_le_bytes [] = 0
from_le_bytes (b ∷ bs) = b + 256 * from_le_bytes bs

pub length-to_le_bytes : (w v : ℕ) → length (to_le_bytes w v) ≡ w
unfolding to_le_bytes
length-to_le_bytes zero v = refl
length-to_le_bytes (suc w) v = ap suc (length-to_le_bytes w (v / 256))

div_bound : (v p : ℕ) → v < 256 * p → v / 256 < p
div_bound v p h = omega arith

pub from-to_le_bytes : (w v : ℕ) → v < 256 ^ w → from_le_bytes (to_le_bytes w v) ≡ v
unfolding to_le_bytes from_le_bytes
from-to_le_bytes zero v h = omega arith
from-to_le_bytes (suc w) v h =
    omega
      (arith, from-to_le_bytes w (v / 256) (div_bound v (256 ^ w) (omega (arith, pow-suc 256 w))))
