-- ===== src/Prelude/BitBounds.antt =====
-- `|` of numbers below a power of two stays below it.
use Prim.Native.Nat.{ℕ, zero, suc, ◌/◌, ◌^◌, ◌<◌, bit_or}
use native.Mathlib.Nat.{pow-suc}
use native.Mathlib.Omega.{arith}
use hoox.Prelude.Bits.{or_lowest, or_zero}

pub bit_or-lt : (k x y : ℕ) → x < 2 ^ k → y < 2 ^ k → bit_or x y < 2 ^ k
bit_or-lt zero zero zero h g = omega (arith, or_zero 0)
bit_or-lt zero (suc x) y h g = absurd (omega arith)
bit_or-lt zero x (suc y) h g = absurd (omega arith)
bit_or-lt (suc k) x y h g = ground (arith, or_lowest x y, pow-suc 2 k, bit_or-lt k (x / 2) (y / 2))
