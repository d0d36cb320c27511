-- ===== src/Arm64/Writer/Pool.antt =====
-- hoox_arm64_writer_commit_literals as a whole: the 64-bit literals, then the 32-bit ones.
use mathlib.Core.List.{Memᴰ}
use hoox.Prelude.{
  ℕ, ◌+◌, ◌*◌, ◌^◌, ◌≤◌, ◌<◌, ◌≡◌, refl, sym, ◌∙◌, ap, ◌⊎◌, inl, inr, Bool, List, arith,
}
use hoox.Prelude.BitBounds.{bit_or-lt}
use hoox.Prelude.Words.{u32}
use hoox.Memory.{Mem, load_le}
use hoox.Memory.Laws.{load_le-Agree}
use hoox.Arm64.Writer.{LiteralRef, LiteralWidth, literal_32, literal_64}
use hoox.Arm64.Writer.Commit.{commit_wide, commit_narrow, wide_literal, narrow_literal}
use hoox.Arm64.Writer.Spread.{Spread, Spread-Apart}
use hoox.Arm64.Writer.Slots.{IsSlot, slot_field, slot_field-lt}
use hoox.Arm64.Writer.Literals.{
  IsSound, HasSlot, HasSlot-mono, Passed, Untouched, commit_pass-Passed,
}

-- The size of a reference's slot and what belongs in it.
abbrev pub slot_size : LiteralRef → ℕ
slot_size r = elim r.width [ literal_64 ↦ 8 | literal_32 ↦ 4 ]

abbrev pub slot_value : LiteralRef → ℕ
slot_value r = elim r.width [ literal_64 ↦ r.val | literal_32 ↦ u32 r.val ]

-- What the pool needs of a reference: its instruction lies before the pool.
abbrev pub IsBefore : ℕ → Mem → LiteralRef → Type 0
IsBefore first m r = (r.insn + 4 ≤ first) × ((load_le 4 m r.insn < 2 ^ 32) × (r.val < 2 ^ 64))

width_cases : (t : LiteralWidth) → (t ≡ literal_64) ⊎ (t ≡ literal_32)
width_cases literal_64 = inl refl
width_cases literal_32 = inr refl

module _ (big : Bool) (first : ℕ) (refs : List LiteralRef) (m : Mem)
    (spread : Spread (λ (r : LiteralRef). r.insn) refs)
    (before : (r : LiteralRef) → Memᴰ r refs → IsBefore first m r) where
  -- The memory and the end of the pool after the first pass, and after the second.
  abbrev middle : ℕ × Mem
  middle = commit_wide big first refs first m

  abbrev finish : ℕ × Mem
  finish = commit_narrow big first refs middle.0 middle.1

  wide-IsSound : (r : LiteralRef) → Memᴰ r refs → IsSound wide_literal 8 first m r
  unfolding wide_literal
  wide-IsSound r i = let (b, (word, val)) = before r i in ((b, word), λ l e. ground arith)

  wide-Passed : Passed wide_literal big 8 first refs first m middle
  unfolding commit_wide
  wide-Passed =
      commit_pass-Passed wide_literal big 8 first (omega arith) (λ n. omega arith) refs first 0 m
        spread wide-IsSound (omega arith)

  -- The references of one width do not touch the instructions of the other.
  wide-Untouched :
      (r : LiteralRef)
      → Memᴰ r refs
      → r.width ≡ literal_32
      → (c : ℕ) → r.insn ≤ c
      → c < r.insn + 4
      → Untouched wide_literal big 8 first refs c
  unfolding wide_literal
  wide-Untouched r i e c l u s j literal f = elim (Spread-Apart spread r s i j) [
    | inl same ↦
        let e' : s.width ≡ literal_32 = sym (ap (λ (t : LiteralRef). t.width) same) ∙ e in
        absurd (ground arith)
    | inr apart ↦ ground arith
  ]

  narrow-Untouched :
      (r : LiteralRef)
      → Memᴰ r refs
      → r.width ≡ literal_64
      → (c : ℕ) → r.insn ≤ c
      → c < r.insn + 4
      → Untouched narrow_literal big 4 first refs c
  unfolding narrow_literal
  narrow-Untouched r i e c l u s j literal f = elim (Spread-Apart spread r s i j) [
    | inl same ↦
        let e' : s.width ≡ literal_64 = sym (ap (λ (t : LiteralRef). t.width) same) ∙ e in
        absurd (ground arith)
    | inr apart ↦ ground arith
  ]

  -- A narrow reference's instruction is the same after the first pass.
  narrow-word :
      (r : LiteralRef)
      → Memᴰ r refs
      → r.width ≡ literal_32
      → load_le 4 middle.1 r.insn ≡ load_le 4 m r.insn
  narrow-word r i e =
      let (b, (word, val)) = before r i in
      let (counted, (grown, (slots, kept))) = wide-Passed in
      load_le-Agree 4 middle.1 m r.insn (λ c l u. kept c (omega arith) (wide-Untouched r i e c l u))

  wide-HasSlot :
      (r : LiteralRef)
      → Memᴰ r refs
      → r.width ≡ literal_64
      → HasSlot wide_literal big 8 first r r.val middle.0 m middle.1
  unfolding wide_literal
  wide-HasSlot r i e =
      let (counted, (grown, (slots, kept))) = wide-Passed in slots r i r.val (ground arith)

  narrow-IsSound : (r : LiteralRef) → Memᴰ r refs → IsSound narrow_literal 4 first middle.1 r
  unfolding narrow_literal
  narrow-IsSound r i = elim (width_cases r.width) [
    | inl e ↦
        let (b, (word, val)) = before r i in
        let (slot, (k, (at, (range, (held, joined))))) = wide-HasSlot r i e in
        (
          (
            b,
            omega (
              arith,
              bit_or-lt 32 (load_le 4 m r.insn) (slot_field slot r.insn) word
                  (slot_field-lt slot r.insn),
            ),
          ),
          λ l f. ground arith,
        )
    | inr e ↦
        let (b, (word, val)) = before r i in
        ((b, omega (arith, narrow-word r i e)), λ l f. ground arith)
  ]

  narrow-Passed : Passed narrow_literal big 4 first refs middle.0 middle.1 finish
  unfolding commit_narrow
  narrow-Passed =
      let ((count, e), (grown, (slots, kept))) = wide-Passed in
      commit_pass-Passed narrow_literal big 4 first (omega arith) (λ n. omega arith) refs middle.0
        (count * 2) middle.1 spread narrow-IsSound (omega arith)

  -- What a reference has in the end: a slot of its size in the pool, at a distance of whole
  -- instructions from its start, that holds its literal, and the field that leads there.
  abbrev pub IsServed : LiteralRef → Type 0
  IsServed r =
      (slot : ℕ) × ((k : ℕ) × ((slot ≡ first + k * 4)
          × IsSlot big (slot_size r) (slot_value r) r.insn first finish.0 m finish.1 slot))

  wide-IsServed : (r : LiteralRef) → Memᴰ r refs → r.width ≡ literal_64 → IsServed r
  wide-IsServed r i e =
      let (b, (word, val)) = before r i in
      let (counted, (grown, (slots, kept))) = narrow-Passed in
      let (slot, (k, (at, holds))) =
        HasSlot-mono wide_literal big 8 first r r.val middle.0 finish.0 m middle.1 finish.1
          (wide-HasSlot r i e) grown b
          (λ c l u. kept c u (λ s j literal f. inr (omega (arith, (before s j).0))))
          (λ c l u. kept c (omega (arith, wide-Passed.1.0)) (narrow-Untouched r i e c l u)) in
      rw e (slot, (k * 2, (omega arith, holds)))

  narrow-IsServed : (r : LiteralRef) → Memᴰ r refs → r.width ≡ literal_32 → IsServed r
  unfolding narrow_literal
  narrow-IsServed r i e =
      let (counted, (grown, (slots, kept))) = narrow-Passed in
      rw (e, ← narrow-word r i e) (slots r i (u32 r.val) (ground arith))

  pub commit_pool-IsServed : (r : LiteralRef) → Memᴰ r refs → IsServed r
  commit_pool-IsServed r i = elim (width_cases r.width) [
    | inl e ↦ wide-IsServed r i e
    | inr e ↦ narrow-IsServed r i e
  ]
