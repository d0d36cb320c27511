-- ===== src/Memory.antt =====
-- Memory that the C code reads and writes through pointers: a byte at each address.
pub mod Laws
use hoox.Prelude.{ℕ, zero, suc, ◌+◌, ◌*◌, ◌/◌, ◌%◌, List, [], ◌∷◌, Bool, ◌==◌, if◌then◌else◌}
use mathlib.Core.List.{reverse}

abbrev pub Mem : Type 0
Mem = ℕ → ℕ

unfoldable pub store_byte : Mem → ℕ → ℕ → Mem
store_byte m a v b = if b == a then v else m b

-- memcpy of the bytes to an address
unfoldable pub store_bytes : Mem → ℕ → List ℕ → Mem
store_bytes m a [] = m
store_bytes m a (v ∷ vs) = store_bytes (store_byte m a v) (a + 1) vs

unfoldable pub load_bytes : Mem → ℕ → ℕ → List ℕ
load_bytes m a zero = []
load_bytes m a (suc n) = m a ∷ load_bytes m (a + 1) n

-- The bytes of a number, the lowest first, and back.
unfoldable pub bytes_le : ℕ → ℕ → List ℕ
bytes_le zero v = []
bytes_le (suc n) v = v % 256 ∷ bytes_le n (v / 256)

unfoldable pub value_le : List ℕ → ℕ
value_le [] = 0
value_le (b ∷ bs) = b + 256 * value_le bs

-- A little-endian number of `n` bytes: `*p` after HX_UINT32_FROM_LE, and `*p = HX_UINT32_TO_LE (v)`.
unfoldable pub load_le : ℕ → Mem → ℕ → ℕ
load_le n m a = value_le (load_bytes m a n)

unfoldable pub store_le : ℕ → Mem → ℕ → ℕ → Mem
store_le n m a v = store_bytes m a (bytes_le n v)

-- The same in big-endian order, as HX_INT64_TO_BE does on a little-endian host.
unfoldable pub load_be : ℕ → Mem → ℕ → ℕ
load_be n m a = value_le (reverse (load_bytes m a n))

unfoldable pub store_be : ℕ → Mem → ℕ → ℕ → Mem
store_be n m a v = store_bytes m a (reverse (bytes_le n v))
