-- ===== src/Interceptor/Consistent/Table.antt =====
-- The table of functions: an entry that is added, and one that is taken out.
use hoox.Prelude.{ℕ, ◌≡◌, inl, inr, ◌==◌, none, List, [], ◌∷◌, if◌then◌else◌, arith, Bool-cases}
use hoox.Interceptor.Instrument.{lookup, remove}
use hoox.Interceptor.Consistent.{Unique}

pub lookup-remove :
    (table : List (ℕ × ℕ)) (a b : ℕ)
    → Unique table
    → lookup (remove table a) b ≡ (if a == b then none else lookup table b)
unfolding lookup remove
lookup-remove [] a b h = ground arith
lookup-remove ((d, c) ∷ table) a b h = ground (arith, lookup-remove table a b h.1)

pub remove-Unique : (table : List (ℕ × ℕ)) (a : ℕ) → Unique table → Unique (remove table a)
unfolding lookup remove
remove-Unique [] a h = tt
remove-Unique ((d, c) ∷ table) a h = elim (Bool-cases (d == a)) [
  | inl here ↦ rw here h.1
  | inr there ↦
      rw there (ground (arith, lookup-remove table a d h.1, h.0), remove-Unique table a h.1)
]
