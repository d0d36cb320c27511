-- ===== src/Arm64/RoundTrip/Labels.antt =====
-- Branches to labels: once resolved, each leads to the place of its label.
use mathlib.Core.List.{Memᴰ}
use hoox.Prelude.{
  ℕ, ◌+◌, ◌*◌, ◌/◌, ◌%◌, ◌^◌, ◌<◌, ◌≡◌, true, List, [], ◌∷◌, Option, none, some, arith, bit_or,
}
use hoox.Prelude.Bits.{or_fields, or_split, or_zero}
use hoox.Prelude.Words.{◌<<◌, u64, sub64, sdiv, srem, is_within_int, sign_extend}
use hoox.Memory.{Mem, load_le}
use hoox.Arm64.Decoder.{
  insn, Op, decode, decode_at, decode_branch, decode_branch_cond, decode_compare_branch,
  decode_test_branch,
}
use hoox.Arm64.Decoder.Classes.{
  decode_of_branch, decode_of_branch_cond, decode_of_compare, decode_of_test,
}
use hoox.Arm64.Decoder.Masks.{low_26, low_19, low_14}
use hoox.Arm64.Writer.{LabelRef, LabelRefType, b, b_cond, bl, cbz, cbnz, tbz, tbnz, lookup_label}
use hoox.Arm64.Writer.Commit.{label_field, commit_label_refs}
use hoox.Arm64.Writer.Spread.{Spread}
use hoox.Arm64.Writer.Labels.{commit_label_refs-patches}
use hoox.Arm64.RoundTrip.Reach.{reach_26, reach_19, reach_14}

-- Where an instruction leads: the immediate that its operands end with.
abbrev pub destination : List Op → Option ℕ
destination [] = none
destination (Op.imm v ∷ []) = some v
destination (op ∷ []) = none
destination (op ∷ p ∷ ops) = destination (p ∷ ops)

-- The instruction that a put function leaves for a label: of the reference's class, with its
-- offset field clear.
abbrev pub IsOpen : LabelRefType → ℕ → Type 0
IsOpen b word = word ≡ 0x14000000
IsOpen bl word = word ≡ 0x94000000
IsOpen b_cond word = (c : ℕ) × ((c < 16) × (word ≡ 0x54000000 + c))
IsOpen cbz word =
    (top : ℕ) × ((n : ℕ) × ((n < 32) × ((top / 2 % 2 ^ 6 ≡ 0x1a) × (word ≡ top * 2 ^ 24 + n))))
IsOpen cbnz word =
    (top : ℕ) × ((n : ℕ) × ((n < 32) × ((top / 2 % 2 ^ 6 ≡ 0x1a) × (word ≡ top * 2 ^ 24 + n))))
IsOpen tbz word =
    (top : ℕ) × ((n : ℕ) × ((n < 32) × ((top / 2 ^ 6 % 2 ^ 6 ≡ 0x1b) × (word ≡ top * 2 ^ 19 + n))))
IsOpen tbnz word =
    (top : ℕ) × ((n : ℕ) × ((n < 32) × ((top / 2 ^ 6 % 2 ^ 6 ≡ 0x1b) × (word ≡ top * 2 ^ 19 + n))))

module _ (pc goal : ℕ) where
  -- Each class, with the field joined to the open word.
  leads_26 :
      (top field : ℕ)
      → field < 2 ^ 26
      → top < 2
      → u64 (pc + sign_extend (field << 2) 28) ≡ goal
      → destination (decode (bit_or ((top * 32 + 5) * 2 ^ 26) field) pc).operands ≡ some goal
  unfolding decode_branch
  leads_26 top field f t reach =
      let word = (top * 32 + 5) * 2 ^ 26 + field in
      rw (or_fields 26 (top * 32 + 5) field f, decode_of_branch word pc (omega arith))
        (ground (arith, low_26 word))

  leads_cond :
      (c field : ℕ)
      → field < 2 ^ 19
      → c < 16
      → u64 (pc + sign_extend (field << 2) 21) ≡ goal
      → destination (decode (bit_or (0x54000000 + c) (field << 5)) pc).operands ≡ some goal
  unfolding decode_branch_cond
  leads_cond c field f h reach =
      let word = 0x54000000 + field * 2 ^ 5 + c in
      let joined : bit_or (0x54000000 + c) (field << 5) ≡ word =
        ground (arith, or_split 5 0x2a00000 c field 0, or_zero c, or_fields 19 0x54 field) in
      rw (joined, decode_of_branch_cond word pc (omega arith) (omega arith))
        (ground (arith, low_19 (word / 2 ^ 5)))

  leads_compare :
      (top n field : ℕ)
      → field < 2 ^ 19
      → n < 32
      → top / 2 % 2 ^ 6 ≡ 0x1a
      → u64 (pc + sign_extend (field << 2) 21) ≡ goal
      → destination (decode (bit_or (top * 2 ^ 24 + n) (field << 5)) pc).operands ≡ some goal
  unfolding decode_compare_branch
  leads_compare top n field f h t reach =
      let word = top * 2 ^ 24 + field * 2 ^ 5 + n in
      let joined : bit_or (top * 2 ^ 24 + n) (field << 5) ≡ word =
        ground (arith, or_split 5 (top * 2 ^ 19) n field 0, or_zero n, or_fields 19 top field) in
      rw (joined, decode_of_compare word pc (omega arith)) (ground (arith, low_19 (word / 2 ^ 5)))

  leads_test :
      (top n field : ℕ)
      → field < 2 ^ 14
      → n < 32
      → top / 2 ^ 6 % 2 ^ 6 ≡ 0x1b
      → u64 (pc + sign_extend (field << 2) 16) ≡ goal
      → destination (decode (bit_or (top * 2 ^ 19 + n) (field << 5)) pc).operands ≡ some goal
  unfolding decode_test_branch
  leads_test top n field f h t reach =
      let word = top * 2 ^ 19 + field * 2 ^ 5 + n in
      let joined : bit_or (top * 2 ^ 19 + n) (field << 5) ≡ word =
        ground (arith, or_split 5 (top * 2 ^ 14) n field 0, or_zero n, or_fields 14 top field) in
      rw (joined, decode_of_test word pc (omega arith)) (ground (arith, low_14 (word / 2 ^ 5)))

-- The field that leads from one place to another leads as far anywhere else.
pub shift_reach :
    (delta insn target offset : ℕ)
    → u64 (insn + offset) ≡ target
    → u64 (u64 (insn + delta) + offset) ≡ u64 (target + delta)
shift_reach delta insn target offset h = omega arith

module _ (delta insn target : ℕ) (insn_fits : insn < 2 ^ 64) (target_fits : target < 2 ^ 64)
    (aligned : srem (sub64 target insn) 4 ≡ 0) where
  abbrev words : ℕ
  words = sdiv (sub64 target insn) 4

  abbrev goal : ℕ
  goal = u64 (target + delta)

  Leads : ℕ → Type 0
  Leads word = destination (decode word (u64 (insn + delta))).operands ≡ some goal

  Leads-far :
      (top field : ℕ)
      → top < 2
      → label_field b words ≡ some field
      → Leads (bit_or ((top * 32 + 5) * 2 ^ 26) field)
  unfolding label_field Leads
  Leads-far top field t f =
      let (near, same) : (is_within_int 28 (sub64 target insn) ≡ true) × (field ≡ words % 2 ^ 26) =
        ground (arith, low_26 words) in
      rw same (
        leads_26 _ _ top (words % 2 ^ 26) (omega arith) t (
          shift_reach delta insn target _
            (reach_26 insn target insn_fits target_fits aligned near)))

  -- The fields of 19 bits, and those of 14.
  field_19 :
      {field : ℕ}
      → label_field cbz words ≡ some field
      → (field ≡ (words % 2 ^ 19) << 5)
        × (u64 (u64 (insn + delta) + sign_extend ((words % 2 ^ 19) << 2) 21) ≡ goal)
  unfolding label_field
  field_19 f =
      let near : is_within_int 19 words ≡ true = ground arith in
      (
        ground (arith, low_19 words),
        shift_reach delta insn target _ (reach_19 insn target insn_fits target_fits aligned near),
      )

  field_14 :
      {field : ℕ}
      → label_field tbz words ≡ some field
      → (field ≡ (words % 2 ^ 14) << 5)
        × (u64 (u64 (insn + delta) + sign_extend ((words % 2 ^ 14) << 2) 16) ≡ goal)
  unfolding label_field
  field_14 f =
      let near : is_within_int 14 words ≡ true = ground arith in
      (
        ground (arith, low_14 words),
        shift_reach delta insn target _ (reach_14 insn target insn_fits target_fits aligned near),
      )

  leads :
      (t : LabelRefType) (word field : ℕ)
      → IsOpen t word
      → label_field t words ≡ some field
      → Leads (bit_or word field)
  unfolding label_field Leads
  leads b word field o f = rw o (Leads-far 0 field (omega arith) f)
  leads bl word field o f = rw o (Leads-far 1 field (omega arith) f)
  leads b_cond word field (c, (h, e)) f =
      let (same, reach) = field_19 f in
      rw (e, same) (leads_cond _ _ c (words % 2 ^ 19) (omega arith) h reach)
  leads cbz word field (top, (n, (h, (t, e)))) f =
      let (same, reach) = field_19 f in
      rw (e, same) (leads_compare _ _ top n (words % 2 ^ 19) (omega arith) h t reach)
  leads cbnz word field (top, (n, (h, (t, e)))) f =
      let (same, reach) = field_19 f in
      rw (e, same) (leads_compare _ _ top n (words % 2 ^ 19) (omega arith) h t reach)
  leads tbz word field (top, (n, (h, (t, e)))) f =
      let (same, reach) = field_14 f in
      rw (e, same) (leads_test _ _ top n (words % 2 ^ 14) (omega arith) h t reach)
  leads tbnz word field (top, (n, (h, (t, e)))) f =
      let (same, reach) = field_14 f in
      rw (e, same) (leads_test _ _ top n (words % 2 ^ 14) (omega arith) h t reach)

-- What resolving needs of a reference and its label: an open instruction of 32 bits, addresses of
-- 64 bits, and a distance of whole instructions.
abbrev pub IsReady : Mem → List (ℕ × ℕ) → LabelRef → Type 0
IsReady m defs r =
    let target = lookup_label r.id defs in
    (IsOpen r.type (load_le 4 m r.insn) × (load_le 4 m r.insn < 2 ^ 32))
    × ((r.insn < 2 ^ 64) × ((target < 2 ^ 64) × (srem (sub64 target r.insn) 4 ≡ 0)))

-- When the loop over the label references has resolved them all, each of the instructions, decoded
-- where it runs, `delta` behind where it was written, leads to its label, as far behind where that
-- was put. The instructions must not overlap, hold branches of the reference's kind with a clear
-- offset field, and have the label at a distance of whole instructions.
pub commit_label_refs-leads :
    (defs : List (ℕ × ℕ)) (refs : List LabelRef) (delta : ℕ) (m m' : Mem)
    → Spread (λ (r : LabelRef). r.insn) refs
    → ((r : LabelRef) → Memᴰ r refs → IsReady m defs r)
    → commit_label_refs defs refs m ≡ (true, m')
    → (r : LabelRef) → Memᴰ r refs
    → destination (decode_at m' r.insn (u64 (r.insn + delta))).operands
      ≡ some (u64 (lookup_label r.id defs + delta))
unfolding decode_at Leads
commit_label_refs-leads defs refs delta m m' spread ready e r i =
    let ((clear, small), (fits, (target_fits, aligned))) = ready r i in
    let (known, (field, (found, word))) =
      commit_label_refs-patches defs refs m m' spread (λ s j. (ready s j).0.1) e r i in
    rw word (
      leads delta r.insn (lookup_label r.id defs) fits target_fits aligned r.type _ field clear
        found)
