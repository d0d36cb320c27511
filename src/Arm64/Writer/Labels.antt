-- ===== src/Arm64/Writer/Labels.antt =====
-- What hoox_arm64_writer_try_commit_label_refs does to the instructions that refer to labels.
use mathlib.Core.List.{Memᴰ}
use hoox.Prelude.{
  ℕ, ◌^◌, ◌<◌, ◌≡◌, refl, sym, ◌∙◌, ap, ◌≢◌, inl, inr, Bool, true, List, [], ◌∷◌, Option, some,
  arith, bit_or,
}
use hoox.Prelude.BitBounds.{bit_or-lt}
use hoox.Prelude.Bits.{and_mask}
use hoox.Prelude.Words.{sub64, sdiv}
use hoox.Memory.{Mem, load_le}
use hoox.Memory.Laws.{Apart, load-store_le, load-store_le-Apart}
use hoox.Arm64.Writer.Spread.{Spread, cons}
use hoox.Arm64.Writer.{
  LabelRef, LabelRefType, b, b_cond, bl, cbz, cbnz, tbz, tbnz, lookup_label, patch,
}
use hoox.Arm64.Writer.Commit.{label_field, commit_label_refs}

-- The field that a reference's label asks for.
abbrev pub field_of : List (ℕ × ℕ) → LabelRef → Option ℕ
field_of defs r = label_field r.type (sdiv (sub64 (lookup_label r.id defs) r.insn) 4)

label_field-lt :
    (t : LabelRefType) (d : ℕ) {field : ℕ} → label_field t d ≡ some field → field < 2 ^ 26
unfolding label_field
label_field-lt b d e = ground (arith, and_mask 26 d)
label_field-lt bl d e = ground (arith, and_mask 26 d)
label_field-lt b_cond d e = ground (arith, and_mask 19 d)
label_field-lt cbz d e = ground (arith, and_mask 19 d)
label_field-lt cbnz d e = ground (arith, and_mask 19 d)
label_field-lt tbz d e = ground (arith, and_mask 14 d)
label_field-lt tbnz d e = ground (arith, and_mask 14 d)

module _ (defs : List (ℕ × ℕ)) where
  -- One round of the loop that did not fail.
  commit_label_refs-cons :
      (r : LabelRef) (rs : List LabelRef) (m m' : Mem)
      → commit_label_refs defs (r ∷ rs) m ≡ (true, m')
      → (lookup_label r.id defs ≢ 0)
        × ((field : ℕ) × ((field_of defs r ≡ some field)
              × (commit_label_refs defs rs (patch m r.insn field) ≡ (true, m'))))
  unfolding commit_label_refs
  commit_label_refs-cons r rs m m' e = ground arith

  patch-Apart :
      (m : Mem) (insn field k a : ℕ)
      → Apart insn 4 a k
      → load_le k (patch m insn field) a ≡ load_le k m a
  unfolding patch
  patch-Apart m insn field k a h = load-store_le-Apart 4 m insn _ k a h

  load-patch :
      (m : Mem) (insn field : ℕ)
      → load_le 4 m insn < 2 ^ 32
      → field < 2 ^ 32
      → load_le 4 (patch m insn field) insn ≡ bit_or (load_le 4 m insn) field
  unfolding patch
  load-patch m insn field h g =
      load-store_le 4 m insn _ (omega (arith, bit_or-lt 32 (load_le 4 m insn) field h g))

  -- Resolving labels leaves everything alone that is no reference.
  pub commit_label_refs-Apart :
      (refs : List LabelRef) (m m' : Mem) (a k : ℕ)
      → commit_label_refs defs refs m ≡ (true, m')
      → ((r : LabelRef) → Memᴰ r refs → Apart r.insn 4 a k)
      → load_le k m' a ≡ load_le k m a
  unfolding commit_label_refs
  commit_label_refs-Apart [] m m' a k e h = ap (λ (p : Bool × Mem). load_le k p.1 a) (sym e)
  commit_label_refs-Apart (r ∷ rs) m m' a k e h =
      let (known, (field, (f, rest))) = commit_label_refs-cons r rs m m' e in
      commit_label_refs-Apart rs (patch m r.insn field) m' a k rest (λ s i. h s (Memᴰ.tail i))
      ∙ patch-Apart m r.insn field k a (h r (Memᴰ.head refl))

  -- When all labels were resolved, each reference's label is defined and within its reach, and its
  -- field is what was joined to the instruction.
  pub commit_label_refs-patches :
      (refs : List LabelRef) (m m' : Mem)
      → Spread (λ (r : LabelRef). r.insn) refs
      → ((r : LabelRef) → Memᴰ r refs → load_le 4 m r.insn < 2 ^ 32)
      → commit_label_refs defs refs m ≡ (true, m')
      → (r : LabelRef) → Memᴰ r refs
      → (lookup_label r.id defs ≢ 0)
        × ((field : ℕ) × ((field_of defs r ≡ some field)
              × (load_le 4 m' r.insn ≡ bit_or (load_le 4 m r.insn) field)))
  commit_label_refs-patches [] m m' spread fits e s i = elim i [ ]
  commit_label_refs-patches (r ∷ rs) m m' (cons apart spread) fits e s (Memᴰ.head eq) =
      let (known, (field, (f, rest))) = commit_label_refs-cons r rs m m' e in
      rw eq (
        known,
        (
          field,
          (
            f,
            commit_label_refs-Apart rs (patch m r.insn field) m' r.insn 4 rest
                  (λ t i. elim (apart t i) [ inl h ↦ inr h | inr h ↦ inl h ])
                ∙ load-patch m r.insn field (fits r (Memᴰ.head refl))
                    (omega (arith, label_field-lt r.type _ f)),
          ),
        ),
      )
  commit_label_refs-patches (r ∷ rs) m m' (cons apart spread) fits e s (Memᴰ.tail i) =
      let (known, (field, (f, rest))) = commit_label_refs-cons r rs m m' e in
      let same : (t : LabelRef)
          → Memᴰ t rs
          → load_le 4 (patch m r.insn field) t.insn ≡ load_le 4 m t.insn =
        λ t j. patch-Apart m r.insn field 4 t.insn (apart t j) in
      let found =
        commit_label_refs-patches rs (patch m r.insn field) m' spread
          (λ t j. rw (same t j) (fits t (Memᴰ.tail j))) rest s i in
      rw (← same s i) found
