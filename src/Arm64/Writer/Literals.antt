-- ===== src/Arm64/Writer/Literals.antt =====
-- hoox_arm64_writer_commit_literals: every literal reference gets a slot that holds its literal.
use mathlib.Core.List.{Memᴰ}
use hoox.Prelude.{
  ℕ, suc, ◌+◌, ◌-◌, ◌*◌, ◌/◌, ◌^◌, ◌≤◌, ◌<◌, ◌≡◌, refl, sym, ◌∙◌, ap, ◌⊎◌, inl, inr, Bool, List, [],
  ◌∷◌, Option, none, some, arith, Option-cases,
}
use hoox.Memory.{Mem, load_le}
use hoox.Memory.Laws.{load_le-Agree}
use hoox.Arm64.Writer.{LiteralRef}
use hoox.Arm64.Writer.Commit.{commit_literal, commit_pass}
use hoox.Arm64.Writer.Spread.{Spread, cons}
use hoox.Arm64.Writer.Slots.{IsSlot, Keeps, load_data-Agree, commit_literal-IsCommitted}

abbrev insn_of : LiteralRef → ℕ
insn_of r = r.insn

-- What a pass needs of a reference that it picks: the instruction is before the pool, and the
-- literal fits its slot.
abbrev pub IsSound : (LiteralRef → Option ℕ) → ℕ → ℕ → Mem → LiteralRef → Type 0
IsSound literal_of size first m r =
    ((r.insn + 4 ≤ first) × (load_le 4 m r.insn < 2 ^ 32))
    × ((literal : ℕ) → literal_of r ≡ some literal → literal < 256 ^ size)

module _ (literal_of : LiteralRef → Option ℕ) (big : Bool) (size first : ℕ) where
  -- The reference has its slot in the pool.
  abbrev pub HasSlot : LiteralRef → ℕ → ℕ → Mem → Mem → Type 0
  HasSlot r literal last m m' =
      (slot : ℕ) × ((k : ℕ) × ((slot ≡ first + k * size)
          × IsSlot big size literal r.insn first last m m' slot))

  -- A later change that stays above the pool and off the instruction keeps the slot.
  pub HasSlot-mono :
      (r : LiteralRef) (literal last last' : ℕ) (m m₁ m₂ : Mem)
      → HasSlot r literal last m m₁
      → last ≤ last'
      → r.insn + 4 ≤ first
      → ((c : ℕ) → first ≤ c → c < last → m₂ c ≡ m₁ c)
      → ((c : ℕ) → r.insn ≤ c → c < r.insn + 4 → m₂ c ≡ m₁ c)
      → HasSlot r literal last' m m₂
  HasSlot-mono r literal last last' m m₁ m₂ (slot, (k, (e, ((low, high), (held, word))))) h b
        same_pool same_word =
      (
        slot,
        (
          k,
          (
            e,
            (
              (low, omega arith),
              (
                load_data-Agree big size m₂ m₁ slot
                      (λ c l u. same_pool c (omega arith) (omega arith))
                    ∙ held,
                load_le-Agree 4 m₂ m₁ r.insn same_word ∙ word,
              ),
            ),
          ),
        ),
      )

  -- An instruction that a pass passes over.
  abbrev pub Untouched : List LiteralRef → ℕ → Type 0
  Untouched rs c =
      (s : LiteralRef)
      → Memᴰ s rs
      → (literal : ℕ) → literal_of s ≡ some literal
      → (c < s.insn) ⊎ (s.insn + 4 ≤ c)

  abbrev pub Passed : List LiteralRef → ℕ → Mem → ℕ × Mem → Type 0
  Passed rs last m done =
      ((count : ℕ) × (done.0 ≡ first + count * size))
      × ((last ≤ done.0)
          × (((r : LiteralRef)
                → Memᴰ r rs
                → (literal : ℕ) → literal_of r ≡ some literal
                → HasSlot r literal done.0 m done.1)
              × ((c : ℕ) → c < last → Untouched rs c → done.1 c ≡ m c)))

  module _ (some_size : 0 < size) (divide : (n : ℕ) → n * size / size ≡ n) where
    count_of : (last count : ℕ) → last ≡ first + count * size → (last - first) / size ≡ count
    count_of last count e =
        let span : last - first ≡ count * size = omega arith in
        ap (λ (t : ℕ). t / size) span ∙ divide count

    literal_unique :
        (r : LiteralRef) (l l' : ℕ) → literal_of r ≡ some l → literal_of r ≡ some l' → l' ≡ l
    literal_unique r l l' e f = ground arith

    -- The round of the first reference and the rounds of the others make a pass.
    Passed-cons :
        (r : LiteralRef) (rs : List LiteralRef) (literal last last₁ : ℕ) (m m₁ : Mem)
        (done : ℕ × Mem)
        → Spread insn_of (r ∷ rs)
        → ((s : LiteralRef) → Memᴰ s (r ∷ rs) → IsSound literal_of size first m s)
        → literal_of r ≡ some literal
        → first ≤ last
        → last ≤ last₁
        → HasSlot r literal last₁ m m₁
        → Keeps r.insn last m m₁
        → Passed rs last₁ m₁ done
        → Passed (r ∷ rs) last m done
    Passed-cons r rs literal last last₁ m m₁ done (cons apart spread) sound e low grows slot keeps
          (counted, (grown, (slots, kept))) =
        (counted, (omega arith, (all, frame)))
      where
        same_word : (s : LiteralRef) → Memᴰ s rs → load_le 4 m₁ s.insn ≡ load_le 4 m s.insn
        same_word s j =
            let b = (sound s (Memᴰ.tail j)).0.0 in
            load_le-Agree 4 m₁ m s.insn (λ c l u. keeps c (omega arith) (ground (arith, apart s j)))

        off :
            (c : ℕ)
            → (c < last₁)
            → ((first ≤ c) ⊎ ((r.insn ≤ c) × (c < r.insn + 4)))
            → done.1 c ≡ m₁ c
        off c h place = kept c h (λ s j l f. ground (arith, (sound s (Memᴰ.tail j)).0.0, apart s j))

        all :
            (s : LiteralRef)
            → Memᴰ s (r ∷ rs)
            → (l : ℕ) → literal_of s ≡ some l
            → HasSlot s l done.0 m done.1
        all s (Memᴰ.head eq) l f =
            let same : l ≡ literal = literal_unique r literal l e (sym (ap literal_of eq) ∙ f) in
            let (before, word) = (sound r (Memᴰ.head refl)).0 in
            rw (eq, same)
              (HasSlot-mono r literal last₁ done.0 m m₁ done.1 slot grown before
                (λ c lo u. off c u (inl lo)) (λ c lo u. off c (omega arith) (inr (lo, u))))
        all s (Memᴰ.tail j) l f = rw (← same_word s j) (slots s j l f)

        frame : (c : ℕ) → c < last → Untouched (r ∷ rs) c → done.1 c ≡ m c
        frame c h out =
            kept c (omega arith) (λ s j. out s (Memᴰ.tail j))
            ∙ keeps c h (out r (Memᴰ.head refl) literal e)

    Passed-skip :
        (r : LiteralRef) (rs : List LiteralRef) (last : ℕ) (m : Mem) (done : ℕ × Mem)
        → literal_of r ≡ none
        → Passed rs last m done
        → Passed (r ∷ rs) last m done
    Passed-skip r rs last m done e (counted, (grown, (slots, kept))) =
        (counted, (grown, (all, λ c h out. kept c h (λ s j. out s (Memᴰ.tail j)))))
      where
        all :
            (s : LiteralRef)
            → Memᴰ s (r ∷ rs)
            → (l : ℕ) → literal_of s ≡ some l
            → HasSlot s l done.0 m done.1
        all s (Memᴰ.head eq) l f =
            let never : some l ≡ none = sym f ∙ ap literal_of eq ∙ e in absurd (ground arith)
        all s (Memᴰ.tail j) l f = slots s j l f

    IsSound-step :
        (r : LiteralRef) (rs : List LiteralRef) (last : ℕ) (m m₁ : Mem)
        → Spread insn_of (r ∷ rs)
        → ((s : LiteralRef) → Memᴰ s (r ∷ rs) → IsSound literal_of size first m s)
        → first ≤ last
        → Keeps r.insn last m m₁
        → (s : LiteralRef) → Memᴰ s rs
        → IsSound literal_of size first m₁ s
    IsSound-step r rs last m m₁ (cons apart spread) sound low keeps s j =
        let ((before, word), fits) = sound s (Memᴰ.tail j) in
        let same =
          load_le-Agree 4 m₁ m s.insn
            (λ c l u. keeps c (omega arith) (ground (arith, apart s j))) in
        ((before, omega arith), fits)

    -- A pass over references that do not overlap gives each that it picks its slot.
    pub commit_pass-Passed :
        (rs : List LiteralRef) (last count : ℕ) (m : Mem)
        → Spread insn_of rs
        → ((r : LiteralRef) → Memᴰ r rs → IsSound literal_of size first m r)
        → last ≡ first + count * size
        → Passed rs last m (commit_pass literal_of big size first rs last m)
    unfolding commit_pass
    commit_pass-Passed [] last count m spread sound e =
        ((count, e), (omega arith, (λ r i. elim i [ ], λ c h out. refl)))
    commit_pass-Passed (r ∷ rs) last count m (cons apart spread) sound e =
        let ((before, word), fits) = sound r (Memᴰ.head refl) in
        elim (Option-cases (literal_of r)) [
          | inl skipped ↦
              rw (commit_pass, skipped)
                (Passed-skip r rs last m _ skipped
                  (commit_pass-Passed rs last count m spread (λ s j. sound s (Memᴰ.tail j)) e))
          | inr (literal, picked) ↦
              let (last₁, m₁) = commit_literal big size literal r first last m in
              let (grown, (slot, keeps)) =
                commit_literal-IsCommitted big size literal r first last count m some_size e
                  (count_of last count e) (fits literal picked) before word in
              let (count₁, e₁) : (n : ℕ) × (last₁ ≡ first + n * size) = elim grown [
                | inl h ↦ (count, h ∙ e)
                | inr h ↦ (suc count, omega arith)
              ] in
              rw (commit_pass, picked)
                (Passed-cons r rs literal last last₁ m m₁ _ (cons apart spread) sound picked
                  (omega arith) (ground arith) slot keeps
                  (commit_pass-Passed rs last₁ count₁ m₁ spread
                    (IsSound-step r rs last m m₁ (cons apart spread) sound (omega arith) keeps) e₁))
        ]
