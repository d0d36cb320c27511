-- ===== src/Prelude/Words.antt =====
-- Fixed-width integers as native numbers. A signed value stands as its bit pattern; a `uint32_t`
-- or a `uint64_t` as itself.
use Prim.Native.Nat.{ℕ, suc, ◌+◌, ◌-◌, ◌*◌, ◌/◌, ◌%◌, ◌^◌, ◌≤◌, ◌<◌, bit_or, bit_xor}
use mathlib.Core.Path.{◌≡◌}
use mathlib.Core.Bool.{Bool, ◌||◌}
use native.Mathlib.Nat.{pow-suc}
use native.Mathlib.Omega.{arith}
use hoox.Prelude.Tests.{ltb, leb, if◌then◌else◌}
use hoox.Prelude.Bits.{xor_clear, xor_set}

infixl 75 ◌<<◌ ◌>>◌
-- `x << k` where no bit is lost, and `x >> k` of an unsigned value.
abbrev pub ◌<<◌ : ℕ → ℕ → ℕ
x << k = x * 2 ^ k

abbrev pub ◌>>◌ : ℕ → ℕ → ℕ
x >> k = x / 2 ^ k

abbrev pub u32 : ℕ → ℕ
u32 x = x % 2 ^ 32

abbrev pub u64 : ℕ → ℕ
u64 x = x % 2 ^ 64

-- `(int64_t) a - (int64_t) b`, in two's complement.
abbrev pub sub64 : ℕ → ℕ → ℕ
sub64 a b = u64 (a + 2 ^ 64 - b)

-- `d / n` and `d % n` on `int64_t`, which round towards zero.
abbrev pub sdiv : ℕ → ℕ → ℕ
sdiv d n = if ltb d (2 ^ 63) then d / n else u64 (2 ^ 64 - (2 ^ 64 - d) / n)

abbrev pub srem : ℕ → ℕ → ℕ
srem d n = if ltb d (2 ^ 63) then d % n else u64 (2 ^ 64 - (2 ^ 64 - d) % n)

-- HOOX_IS_WITHIN_INT<n>_RANGE, of an `int64_t`: -2 ^ (n - 1) to 2 ^ (n - 1) - 1.
abbrev pub is_within_int : ℕ → ℕ → Bool
is_within_int n d = ltb d (2 ^ (n - 1)) || leb (2 ^ 64 - 2 ^ (n - 1)) d

-- hx_sign_extend: the value of a field of `bits` bits as an `int64_t`.
unfoldable pub sign_extend : ℕ → ℕ → ℕ
sign_extend value bits = let m = 1 << (bits - 1) in sub64 (bit_xor value m) m

sub_one : (k : ℕ) → suc k - 1 ≡ k
sub_one k = omega arith

-- `sign_extend` subtracts the width from a field whose top bit is set.
pub sign_extend_lem :
    (k value : ℕ)
    → 2 ^ suc k ≤ 2 ^ 63
    → value < 2 ^ suc k
    → sign_extend value (suc k) ≡ (if ltb value (2 ^ k) then value else value + 2 ^ 64 - 2 ^ suc k)
unfolding sign_extend
sign_extend_lem k value small fits =
    ground (arith, pow-suc 2 k, sub_one k, xor_clear k value, xor_set k value)

-- `a | b`, for the encodings, which join many fields.
infixl 45 ◌or◌
abbrev pub ◌or◌ : ℕ → ℕ → ℕ
a or b = bit_or a b

abbrev pub u8 : ℕ → ℕ
u8 x = x % 2 ^ 8

-- `d >> k` of an `int64_t`, which rounds down.
abbrev pub sar : ℕ → ℕ → ℕ
sar d k = if ltb d (2 ^ 63) then d / 2 ^ k else u64 (2 ^ 64 - (2 ^ 64 - d + (2 ^ k - 1)) / 2 ^ k)
