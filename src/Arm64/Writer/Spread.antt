-- ===== src/Arm64/Writer/Spread.antt =====
-- References whose instructions do not overlap.
use mathlib.Core.List.{List, [], ◌∷◌, Memᴰ}
use hoox.Prelude.{ℕ, ◌≡◌, ◌∙◌, sym, ◌⊎◌, inl, inr}
use hoox.Memory.Laws.{Apart}

pub data Spread {A : Type 0} (insn : A → ℕ) : List A → Type 0 where
  nil : Spread insn []
  cons :
      {r : A} {rs : List A}
      → ((s : A) → Memᴰ s rs → Apart (insn r) 4 (insn s) 4)
      → Spread insn rs
      → Spread insn (r ∷ rs)

-- Two members are the same, or their instructions do not overlap.
pub Spread-Apart :
    {A : Type 0} {insn : A → ℕ} {rs : List A}
    → Spread insn rs
    → (r s : A) → Memᴰ r rs
    → Memᴰ s rs
    → (r ≡ s) ⊎ Apart (insn r) 4 (insn s) 4
Spread-Apart nil r s i j = elim i [ ]
Spread-Apart (cons apart spread) r s (Memᴰ.head e) (Memᴰ.head e') = inl (e ∙ sym e')
Spread-Apart (cons apart spread) r s (Memᴰ.head e) (Memᴰ.tail j) = inr (rw e (apart s j))
Spread-Apart (cons apart spread) r s (Memᴰ.tail i) (Memᴰ.head e) =
    inr (rw e (elim (apart r i) [ inl h ↦ inr h | inr h ↦ inl h ]))
Spread-Apart (cons apart spread) r s (Memᴰ.tail i) (Memᴰ.tail j) = Spread-Apart spread r s i j
