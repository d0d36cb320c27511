-- ===== src/Memory/Laws.antt =====
-- What a store does to the bytes that it covers, and to all others.
use mathlib.Core.List.{reverse, reverse-reverse, reverse-append}
use mathlib.Core.Path.{ap₂}
use native.Mathlib.Nat.{pow-suc}
use hoox.Prelude.{
  sym, ℕ, zero, suc, ◌+◌, ◌/◌, ◌^◌, ◌≤◌, ◌<◌, ◌≡◌, refl, ap, ◌∙◌, ◌⊎◌, List, [], ◌∷◌, arith, length,
  length-append,
}
use hoox.Memory.{
  Mem, store_byte, store_bytes, load_bytes, bytes_le, value_le, load_le, store_le, load_be,
  store_be,
}

-- Two ranges of addresses that do not meet.
abbrev pub Apart : ℕ → ℕ → ℕ → ℕ → Type 0
Apart a n b k = (a + n ≤ b) ⊎ (b + k ≤ a)

store_bytes_outside :
    (bs : List ℕ) (m : Mem) (a c : ℕ) → (c < a) ⊎ (a + length bs ≤ c) → store_bytes m a bs c ≡ m c
unfolding store_bytes store_byte
store_bytes_outside [] m a c h = refl
store_bytes_outside (v ∷ vs) m a c h =
    ground (arith, store_bytes_outside vs (store_byte m a v) (a + 1) c)

load_bytes-store_bytes :
    (bs : List ℕ) (m : Mem) (a : ℕ) → load_bytes (store_bytes m a bs) a (length bs) ≡ bs
unfolding load_bytes store_bytes store_byte
load_bytes-store_bytes [] m a = refl
load_bytes-store_bytes (v ∷ vs) m a =
    ap₂ ◌∷◌ head (load_bytes-store_bytes vs (store_byte m a v) (a + 1))
  where
    head : store_bytes (store_byte m a v) (a + 1) vs a ≡ v
    head = ground (arith, store_bytes_outside vs (store_byte m a v) (a + 1) a)

load_bytes-outside :
    (bs : List ℕ) (m : Mem) (a n c : ℕ)
    → Apart a (length bs) c n
    → load_bytes (store_bytes m a bs) c n ≡ load_bytes m c n
unfolding load_bytes
load_bytes-outside bs m a zero c h = refl
load_bytes-outside bs m a (suc n) c h =
    ap₂ ◌∷◌ (store_bytes_outside bs m a c (ground arith))
      (load_bytes-outside bs m a n (c + 1) (ground arith))

pub length-bytes_le : (n v : ℕ) → length (bytes_le n v) ≡ n
unfolding bytes_le
length-bytes_le zero v = refl
length-bytes_le (suc n) v = ap suc (length-bytes_le n (v / 256))

value-bytes_le : (n v : ℕ) → v < 256 ^ n → value_le (bytes_le n v) ≡ v
unfolding value_le bytes_le
value-bytes_le zero v h = omega arith
value-bytes_le (suc n) v h = omega (arith, pow-suc 256 n, value-bytes_le n (v / 256))

length-reverse : (bs : List ℕ) → length (reverse bs) ≡ length bs
length-reverse [] = refl
length-reverse (b ∷ bs) = omega (
  arith,
  ap length (reverse-append (b ∷ []) bs),
  length-append (reverse bs) (b ∷ []),
  length-reverse bs,
)

reload_prefix :
    (bs : List ℕ) (n : ℕ)
    → length bs ≡ n
    → (m : Mem) (a : ℕ) → load_bytes (store_bytes m a bs) a n ≡ bs
reload_prefix bs n e m a =
    ap (load_bytes (store_bytes m a bs) a) (sym e) ∙ load_bytes-store_bytes bs m a

-- A number that fits reads back as it was stored.
pub load-store_le : (n : ℕ) (m : Mem) (a v : ℕ) → v < 256 ^ n → load_le n (store_le n m a v) a ≡ v
unfolding load_le store_le
load-store_le n m a v h =
    ap value_le (reload_prefix (bytes_le n v) n (length-bytes_le n v) m a) ∙ value-bytes_le n v h

-- A store leaves the numbers outside its range alone.
pub load-store_le-Apart :
    (n : ℕ) (m : Mem) (a v k c : ℕ) → Apart a n c k → load_le k (store_le n m a v) c ≡ load_le k m c
unfolding load_le store_le
load-store_le-Apart n m a v k c h =
    ap value_le (load_bytes-outside (bytes_le n v) m a k c (rw (length-bytes_le n v) h))

pub load-store_be : (n : ℕ) (m : Mem) (a v : ℕ) → v < 256 ^ n → load_be n (store_be n m a v) a ≡ v
unfolding load_be store_be
load-store_be n m a v h =
    ap (λ (bs : List ℕ). value_le (reverse bs))
      (reload_prefix (reverse (bytes_le n v)) n (length-reverse _ ∙ length-bytes_le n v) m a)
    ∙ ap value_le (reverse-reverse (bytes_le n v))
    ∙ value-bytes_le n v h

pub load-store_be-Apart :
    (n : ℕ) (m : Mem) (a v k c : ℕ) → Apart a n c k → load_le k (store_be n m a v) c ≡ load_le k m c
unfolding load_le store_be
load-store_be-Apart n m a v k c h = ap value_le (
    load_bytes-outside (reverse (bytes_le n v)) m a k c
      (rw (length-reverse (bytes_le n v), length-bytes_le n v) h))

-- Copied bytes read back, and the copy leaves all others alone.
pub load-store_bytes-Apart :
    (bs : List ℕ) (m : Mem) (a k c : ℕ)
    → Apart a (length bs) c k
    → load_le k (store_bytes m a bs) c ≡ load_le k m c
unfolding load_le
load-store_bytes-Apart bs m a k c h = ap value_le (load_bytes-outside bs m a k c h)

-- Byte by byte: what a store leaves alone, and loads of the same bytes.
pub store_le-outside :
    (n : ℕ) (m : Mem) (a v c : ℕ) → (c < a) ⊎ (a + n ≤ c) → store_le n m a v c ≡ m c
unfolding store_le
store_le-outside n m a v c h = store_bytes_outside (bytes_le n v) m a c (rw (length-bytes_le n v) h)

pub store_be-outside :
    (n : ℕ) (m : Mem) (a v c : ℕ) → (c < a) ⊎ (a + n ≤ c) → store_be n m a v c ≡ m c
unfolding store_be
store_be-outside n m a v c h =
    store_bytes_outside (reverse (bytes_le n v)) m a c
      (rw (length-reverse (bytes_le n v), length-bytes_le n v) h)

-- Two memories that agree from `a` on for `n` bytes.
abbrev pub Agree : Mem → Mem → ℕ → ℕ → Type 0
Agree m m' a n = (c : ℕ) → a ≤ c → c < a + n → m c ≡ m' c

load_bytes-Agree :
    (n : ℕ) (m m' : Mem) (a : ℕ) → Agree m m' a n → load_bytes m a n ≡ load_bytes m' a n
unfolding load_bytes
load_bytes-Agree zero m m' a h = refl
load_bytes-Agree (suc n) m m' a h =
    ap₂ ◌∷◌ (h a (omega arith) (omega arith))
      (load_bytes-Agree n m m' (a + 1) (λ c l u. h c (omega arith) (omega arith)))

pub load_le-Agree : (n : ℕ) (m m' : Mem) (a : ℕ) → Agree m m' a n → load_le n m a ≡ load_le n m' a
unfolding load_le
load_le-Agree n m m' a h = ap value_le (load_bytes-Agree n m m' a h)

pub load_be-Agree : (n : ℕ) (m m' : Mem) (a : ℕ) → Agree m m' a n → load_be n m a ≡ load_be n m' a
unfolding load_be
load_be-Agree n m m' a h = ap (λ (bs : List ℕ). value_le (reverse bs)) (load_bytes-Agree n m m' a h)
