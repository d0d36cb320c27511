-- ===== src/Prelude/Bits.antt =====
-- `&`, `|` and `^` of C as arithmetic. Each is a sum over the fields of its operands: at every
-- width `k`, the part below bit `k` and the part above it go their own way.
use Prim.Native.Nat.{
  ℕ, zero, suc, ◌+◌, ◌-◌, ◌*◌, ◌/◌, ◌%◌, ◌^◌, ◌≤◌, ◌<◌, min, max, bit_and, bit_or, bit_xor, digits,
  differ, bit_and-bitwise, bit_or-bitwise, bit_xor-bitwise,
}
use native.Mathlib.Nat.{pow-suc, one-le-pow}
use mathlib.Core.Path.{◌≡◌, refl, ap}
use native.Mathlib.Omega.{arith}

-- The count of digits to go does not matter, once it is enough for the first number.
module _ (last : ℕ → ℕ) (digit : ℕ → ℕ → ℕ) where
  digits_stable : (k l x y : ℕ) → x ≤ k → x ≤ l → digits last digit k x y ≡ digits last digit l x y
  digits_stable (suc k) (suc l) (suc x) y p q =
      omega (arith, digits_stable k l (suc x / 2) (y / 2) (omega arith) (omega arith))
  digits_stable (suc k) (suc l) zero y p q = refl
  digits_stable (suc k) zero zero y p q = refl
  digits_stable zero (suc l) zero y p q = refl
  digits_stable zero zero zero y p q = refl
  digits_stable zero l (suc x) y p q = absurd (omega arith)
  digits_stable (suc k) zero (suc x) y p q = absurd (omega arith)

-- The lowest digit of each operation.
pub and_lowest : (x y : ℕ) → bit_and x y ≡ bit_and (x / 2) (y / 2) * 2 + min (x % 2) (y % 2)
and_lowest zero y = omega (arith, bit_and-bitwise 0 y, bit_and-bitwise 0 (y / 2))
and_lowest (suc x) y = omega (
  arith,
  bit_and-bitwise (suc x) y,
  bit_and-bitwise (suc x / 2) (y / 2),
  digits_stable (λ b. 0) min x (suc x / 2) (suc x / 2) (y / 2) (omega arith) (omega arith),
)

pub or_lowest : (x y : ℕ) → bit_or x y ≡ bit_or (x / 2) (y / 2) * 2 + max (x % 2) (y % 2)
or_lowest zero y = omega (arith, bit_or-bitwise 0 y, bit_or-bitwise 0 (y / 2))
or_lowest (suc x) y = omega (
  arith,
  bit_or-bitwise (suc x) y,
  bit_or-bitwise (suc x / 2) (y / 2),
  digits_stable (λ b. b) max x (suc x / 2) (suc x / 2) (y / 2) (omega arith) (omega arith),
)

pub xor_lowest : (x y : ℕ) → bit_xor x y ≡ bit_xor (x / 2) (y / 2) * 2 + differ (x % 2) (y % 2)
xor_lowest zero y = omega (arith, bit_xor-bitwise 0 y, bit_xor-bitwise 0 (y / 2))
xor_lowest (suc x) y = omega (
  arith,
  bit_xor-bitwise (suc x) y,
  bit_xor-bitwise (suc x / 2) (y / 2),
  digits_stable (λ b. b) differ x (suc x / 2) (suc x / 2) (y / 2) (omega arith) (omega arith),
)

double_pow : (q k : ℕ) → q * 2 ^ suc k ≡ 2 * (q * 2 ^ k)
double_pow q k = omega (arith, ap (λ (t : ℕ). q * t) (pow-suc 2 k))

module _ (op digit : ℕ → ℕ → ℕ) (nil : op 0 0 ≡ 0)
    (lowest : (x y : ℕ) → op x y ≡ op (x / 2) (y / 2) * 2 + digit (x % 2) (y % 2)) where
  -- An operation digit by digit splits at bit `k`.
  split :
      (k a b c d : ℕ)
      → b < 2 ^ k
      → d < 2 ^ k
      → op (a * 2 ^ k + b) (c * 2 ^ k + d) ≡ op a c * 2 ^ k + op b d
  split zero a b c d p q =
      let zb : b ≡ 0 = omega arith in
      let zd : d ≡ 0 = omega arith in ground (arith, ap (op b) zd, ap (λ (t : ℕ). op t 0) zb)
  split (suc k) a b c d p q = ground (
    arith,
    lowest (a * 2 ^ suc k + b) (c * 2 ^ suc k + d),
    lowest b d,
    double_pow a k,
    double_pow c k,
    double_pow (op a c) k,
    pow-suc 2 k,
    split k a (b / 2) c (d / 2),
  )

-- The split of each operation.
module _ (k a b c d : ℕ) (low_left : b < 2 ^ k) (low_right : d < 2 ^ k) where
  pub and_split : bit_and (a * 2 ^ k + b) (c * 2 ^ k + d) ≡ bit_and a c * 2 ^ k + bit_and b d
  and_split = split bit_and min refl and_lowest k a b c d low_left low_right

  pub or_split : bit_or (a * 2 ^ k + b) (c * 2 ^ k + d) ≡ bit_or a c * 2 ^ k + bit_or b d
  or_split = split bit_or max refl or_lowest k a b c d low_left low_right

  pub xor_split : bit_xor (a * 2 ^ k + b) (c * 2 ^ k + d) ≡ bit_xor a c * 2 ^ k + bit_xor b d
  xor_split = split bit_xor differ refl xor_lowest k a b c d low_left low_right

-- Zero changes nothing under `|` and `^`, and leaves nothing under `&`.
or_zero_below : (n x : ℕ) → x ≤ n → bit_or x 0 ≡ x
or_zero_below n zero h = refl
or_zero_below zero (suc x) h = absurd (omega arith)
or_zero_below (suc n) (suc x) h =
    omega (arith, or_lowest (suc x) 0, or_zero_below n (suc x / 2) (omega arith))

and_zero_below : (n x : ℕ) → x ≤ n → bit_and x 0 ≡ 0
and_zero_below n zero h = refl
and_zero_below zero (suc x) h = absurd (omega arith)
and_zero_below (suc n) (suc x) h =
    omega (arith, and_lowest (suc x) 0, and_zero_below n (suc x / 2) (omega arith))

differ-zero : (x : ℕ) → differ x 0 ≡ x
differ-zero zero = refl
differ-zero (suc x) = refl

xor_zero_below : (n x : ℕ) → x ≤ n → bit_xor x 0 ≡ x
xor_zero_below n zero h = refl
xor_zero_below zero (suc x) h = absurd (omega arith)
xor_zero_below (suc n) (suc x) h = omega (
  arith,
  xor_lowest (suc x) 0,
  differ-zero (suc x % 2),
  xor_zero_below n (suc x / 2) (omega arith),
)

pub or_zero : (x : ℕ) → bit_or x 0 ≡ x
or_zero x = or_zero_below x x (omega arith)

pub zero_or : (x : ℕ) → bit_or 0 x ≡ x
zero_or x = bit_or-bitwise 0 x

pub and_zero : (x : ℕ) → bit_and x 0 ≡ 0
and_zero x = and_zero_below x x (omega arith)

pub xor_zero : (x : ℕ) → bit_xor x 0 ≡ x
xor_zero x = xor_zero_below x x (omega arith)

-- A mask of `k` ones keeps what fits it.
and_ones : (k r : ℕ) → r < 2 ^ k → bit_and r (2 ^ k - 1) ≡ r
and_ones zero r h = ground (arith, and_zero r)
and_ones (suc k) r h =
    ground (arith, and_lowest r (2 ^ suc k - 1), pow-suc 2 k, one-le-pow k 2, and_ones k (r / 2))

-- `x & ((1 << k) - 1)` is the remainder.
pub and_mask : (k x : ℕ) → bit_and x (2 ^ k - 1) ≡ x % 2 ^ k
and_mask k x = ground (
  arith,
  one-le-pow k 2,
  and_split k (x / 2 ^ k) (x % 2 ^ k) 0 (2 ^ k - 1),
  and_zero (x / 2 ^ k),
  and_ones k (x % 2 ^ k),
)

-- A mask of `n` ones at bit `k` keeps that field.
pub and_field : (n k x : ℕ) → bit_and x ((2 ^ n - 1) * 2 ^ k) ≡ x / 2 ^ k % 2 ^ n * 2 ^ k
and_field n k x = ground (
  arith,
  one-le-pow k 2,
  and_split k (x / 2 ^ k) (x % 2 ^ k) (2 ^ n - 1) 0,
  and_zero (x % 2 ^ k),
  and_mask n (x / 2 ^ k),
)

-- A mask of two parts, one above bit `k` and one below it.
pub and_parts :
    (k x hi lo : ℕ)
    → lo < 2 ^ k
    → bit_and x (hi * 2 ^ k + lo) ≡ bit_and (x / 2 ^ k) hi * 2 ^ k + bit_and (x % 2 ^ k) lo
and_parts k x hi lo h = ground (arith, one-le-pow k 2, and_split k (x / 2 ^ k) (x % 2 ^ k) hi lo)

-- Fields that do not overlap are added.
pub or_fields : (k a b : ℕ) → b < 2 ^ k → bit_or (a * 2 ^ k) b ≡ a * 2 ^ k + b
or_fields k a b h = ground (arith, one-le-pow k 2, or_split k a 0 0 b, or_zero a, zero_or b)

pub or_fields_swap : (k a b : ℕ) → b < 2 ^ k → bit_or b (a * 2 ^ k) ≡ a * 2 ^ k + b
or_fields_swap k a b h = ground (arith, one-le-pow k 2, or_split k 0 b a 0, or_zero b, zero_or a)

-- Flipping bit `k` of a number that has no bit above it.
pub xor_clear : (k x : ℕ) → x < 2 ^ k → bit_xor x (2 ^ k) ≡ x + 2 ^ k
xor_clear k x h = ground (arith, one-le-pow k 2, xor_split k 0 x 1 0, xor_zero x)

pub xor_set : (k x : ℕ) → 2 ^ k ≤ x → x < 2 ^ k + 2 ^ k → bit_xor x (2 ^ k) ≡ x - 2 ^ k
xor_set k x h g = ground (arith, xor_split k 1 (x - 2 ^ k) 1 0, xor_zero (x - 2 ^ k))
