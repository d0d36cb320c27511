-- ===== src/Arm64/Writer/Slots.antt =====
-- One literal reference of hoox_arm64_writer_commit_literals: its slot in the pool.
use hoox.Prelude.{
  ℕ, zero, suc, ◌+◌, ◌-◌, ◌*◌, ◌/◌, ◌^◌, ◌≤◌, ◌<◌, ◌≡◌, refl, ◌∙◌, ap, ◌≢◌, ◌⊎◌, inl, inr, Bool,
  arith, bit_and, bit_or, ◌==◌, Bool-cases,
}
use hoox.Prelude.BitBounds.{bit_or-lt}
use hoox.Prelude.Bits.{and_mask}
use hoox.Prelude.Words.{◌<<◌, sub64, sdiv}
use hoox.Memory.{Mem, load_le}
use hoox.Memory.Laws.{
  Agree, load-store_le, load-store_be, store_le-outside, store_be-outside, load_le-Agree,
  load_be-Agree,
}
use hoox.Arm64.Writer.{LiteralRef, patch}
use hoox.Arm64.Writer.Commit.{load_data, store_data, find_slot, commit_literal}

module _ (big : Bool) (size : ℕ) where
  pub load-store_data :
      (m : Mem) (a v : ℕ) → v < 256 ^ size → load_data big size (store_data big size m a v) a ≡ v
  load-store_data m a v h = elim (Bool-cases big) [
    | inl e ↦ rw e (load-store_be size m a v h)
    | inr e ↦ rw e (load-store_le size m a v h)
  ]

  store_data-outside :
      (m : Mem) (a v c : ℕ) → (c < a) ⊎ (a + size ≤ c) → store_data big size m a v c ≡ m c
  store_data-outside m a v c h = elim (Bool-cases big) [
    | inl e ↦ rw e (store_be-outside size m a v c h)
    | inr e ↦ rw e (store_le-outside size m a v c h)
  ]

  pub load_data-Agree :
      (m m' : Mem) (a : ℕ) → Agree m m' a size → load_data big size m a ≡ load_data big size m' a
  load_data-Agree m m' a h = elim (Bool-cases big) [
    | inl e ↦ rw e (load_be-Agree size m m' a h)
    | inr e ↦ rw e (load_le-Agree size m m' a h)
  ]

multiple_lt : (k n size : ℕ) → k < n → k * size + size ≤ n * size
multiple_lt k zero size h = absurd (omega arith)
multiple_lt zero (suc n) size h = omega arith
multiple_lt (suc k) (suc n) size h = omega (arith, multiple_lt k n size (omega arith))

-- The search ends at a slot that holds the literal, or behind the last slot.
find_slot_lem :
    (big : Bool) (size : ℕ) (m : Mem) (literal slot left : ℕ)
    → let s = find_slot big size m literal slot left in
      (k : ℕ) × ((s ≡ slot + k * size)
        × (((k ≡ left)) ⊎ ((k < left) × (load_data big size m s ≡ literal))))
unfolding find_slot
find_slot_lem big size m literal slot zero = (0, (omega arith, inl refl))
find_slot_lem big size m literal slot (suc left) =
    let (k, (e, h)) = find_slot_lem big size m literal (slot + size) left in
    elim (Bool-cases (load_data big size m slot == literal)) [
      | inl found ↦ (0, (ground arith, inr (omega arith, ground arith)))
      | inr other ↦ (suc k, (ground arith, ground arith))
    ]

-- The field that leads from an instruction to a slot.
abbrev pub slot_field : ℕ → ℕ → ℕ
slot_field slot insn = bit_and (sdiv (sub64 slot insn) 4) 0x7ffff << 5

pub slot_field-lt : (slot insn : ℕ) → slot_field slot insn < 2 ^ 32
slot_field-lt slot insn = omega (arith, and_mask 19 (sdiv (sub64 slot insn) 4))

-- The bytes of a memory that a step leaves alone: those below `last`, outside an instruction.
abbrev pub Keeps : ℕ → ℕ → Mem → Mem → Type 0
Keeps insn last m m' = (c : ℕ) → c < last → (c < insn) ⊎ (insn + 4 ≤ c) → m' c ≡ m c

-- A literal that is found or stored at a slot of the pool between `first` and `last`, and the
-- instruction that leads to it.
abbrev pub IsSlot : Bool → ℕ → ℕ → ℕ → ℕ → ℕ → Mem → Mem → ℕ → Type 0
IsSlot big size literal insn first last m m' slot =
    ((first ≤ slot) × (slot + size ≤ last))
    × ((load_data big size m' slot ≡ literal)
        × (load_le 4 m' insn ≡ bit_or (load_le 4 m insn) (slot_field slot insn)))

module _ (big : Bool) (size literal : ℕ) (r : LiteralRef) (first last count : ℕ) (m : Mem)
    (some_size : 0 < size) (counted : last ≡ first + count * size)
    (count_of : (last - first) / size ≡ count) (fits : literal < 256 ^ size)
    (before : r.insn + 4 ≤ first) (word : load_le 4 m r.insn < 2 ^ 32) where
  patch-outside :
      (m₁ : Mem) (field c : ℕ) → (c < r.insn) ⊎ (r.insn + 4 ≤ c) → patch m₁ r.insn field c ≡ m₁ c
  unfolding patch
  patch-outside m₁ field c h = store_le-outside 4 m₁ r.insn _ c h

  load-patch :
      (m₁ : Mem) (field : ℕ)
      → load_le 4 m₁ r.insn ≡ load_le 4 m r.insn
      → field < 2 ^ 32
      → load_le 4 (patch m₁ r.insn field) r.insn ≡ bit_or (load_le 4 m r.insn) field
  unfolding patch
  load-patch m₁ field e h =
      rw e (
        load-store_le 4 m₁ r.insn _ (omega (arith, bit_or-lt 32 (load_le 4 m r.insn) field word h)))

  -- The end of one round, from the slot and the memory with the literal in it.
  commit_at :
      (m₁ : Mem) (slot last' : ℕ)
      → first ≤ slot
      → slot + size ≤ last'
      → load_data big size m₁ slot ≡ literal
      → ((c : ℕ) → c < last → m₁ c ≡ m c)
      → IsSlot big size literal r.insn first last' m (patch m₁ r.insn (slot_field slot r.insn)) slot
        × Keeps r.insn last m (patch m₁ r.insn (slot_field slot r.insn))
  commit_at m₁ slot last' low high held same =
      let field = slot_field slot r.insn in
      let kept = load_le-Agree 4 m₁ m r.insn (λ c l u. same c (omega arith)) in
      (
        (
          (low, high),
          (
            load_data-Agree big size (patch m₁ r.insn field) m₁ slot
                  (λ c l u. patch-outside m₁ field c (inr (omega arith)))
                ∙ held,
            load-patch m₁ field kept (slot_field-lt slot r.insn),
          ),
        ),
        λ c h out. patch-outside m₁ field c out ∙ same c h,
      )

  abbrev slot_of : ℕ
  slot_of = find_slot big size m literal first ((last - first) / size)

  commit_found :
      slot_of ≢ last
      → commit_literal big size literal r first last m
        ≡ (last, patch m r.insn (slot_field slot_of r.insn))
  unfolding commit_literal
  commit_found h = ground arith

  commit_stored :
      slot_of ≡ last
      → commit_literal big size literal r first last m
        ≡ (last + size, patch (store_data big size m last literal) r.insn (slot_field last r.insn))
  unfolding commit_literal
  commit_stored h = ground arith

  -- What a round of a pass does: the pool grows by a slot or not at all, the reference leads to a
  -- slot with its literal, and nothing below the end of the pool changes but its instruction.
  abbrev pub IsCommitted : ℕ × Mem → Type 0
  IsCommitted done =
      ((done.0 ≡ last) ⊎ (done.0 ≡ last + size))
      × (((slot : ℕ) × ((k : ℕ) × ((slot ≡ first + k * size)
                × IsSlot big size literal r.insn first done.0 m done.1 slot)))
          × Keeps r.insn last m done.1)

  pub commit_literal-IsCommitted : IsCommitted (commit_literal big size literal r first last m)
  commit_literal-IsCommitted =
      let (k, (e, h)) = find_slot_lem big size m literal first ((last - first) / size) in
      elim h [
        | inl end ↦
            let at_last : slot_of ≡ last =
              omega (arith, ap (λ (t : ℕ). t * size) (end ∙ count_of)) in
            let (slot, keeps) =
              commit_at (store_data big size m last literal) last (last + size) (omega arith)
                (omega arith) (load-store_data big size m last literal fits)
                (λ c l. store_data-outside big size m last literal c (inl l)) in
            rw (commit_stored at_last) (inr refl, ((last, (count, (counted, slot))), keeps))
        | inr (inside, held) ↦
            let room = multiple_lt k count size (omega arith) in
            let (slot, keeps) =
              commit_at m slot_of last (omega arith) (omega arith) held (λ c l. refl) in
            rw (commit_found (omega arith)) (inl refl, ((slot_of, (k, (e, slot))), keeps))
      ]
