-- ===== src/Arm64/Writer/Commit.antt =====
-- src/arch/arm64/hooxarm64writer.c: label references are resolved and the literal pool is written
-- out.
use hoox.Prelude.{
  ℕ, zero, suc, ◌+◌, ◌-◌, ◌/◌, bit_and, Bool, true, false, Option, none, some, List, [], ◌∷◌, ◌==◌,
  if◌then◌else◌,
}
use hoox.Prelude.Words.{◌<<◌, u32, u64, sub64, sdiv, is_within_int}
use hoox.Memory.{Mem, load_le, store_le, load_be, store_be}
use hoox.Arm64.Writer.{
  Writer, LabelRef, LabelRefType, b, b_cond, bl, cbz, cbnz, tbz, tbnz, LiteralRef, literal_32,
  literal_64, lookup_label, patch,
}

-- The field of a label reference at a distance in words, if it is in range.
unfoldable pub label_field : LabelRefType → ℕ → Option ℕ
label_field b d = if is_within_int 26 d then some (bit_and d 0x03ffffff) else none
label_field bl d = if is_within_int 26 d then some (bit_and d 0x03ffffff) else none
label_field b_cond d = if is_within_int 19 d then some (bit_and d 0x7ffff << 5) else none
label_field cbz d = if is_within_int 19 d then some (bit_and d 0x7ffff << 5) else none
label_field cbnz d = if is_within_int 19 d then some (bit_and d 0x7ffff << 5) else none
label_field tbz d = if is_within_int 14 d then some (bit_and d 0x3fff << 5) else none
label_field tbnz d = if is_within_int 14 d then some (bit_and d 0x3fff << 5) else none

-- The loop of hoox_arm64_writer_try_commit_label_refs; what it patched before a failure stays.
unfoldable pub commit_label_refs : List (ℕ × ℕ) → List LabelRef → Mem → Bool × Mem
commit_label_refs defs [] m = (true, m)
commit_label_refs defs (r ∷ rs) m =
    let target = lookup_label r.id defs in
    let rest = λ (field : ℕ). commit_label_refs defs rs (patch m r.insn field) in
    if target == 0 then (false, m) else elim (label_field r.type (sdiv (sub64 target r.insn) 4)) [
      | none ↦ (false, m)
      | some field ↦ rest field
    ]

-- hoox_arm64_writer_try_commit_label_refs
unfoldable pub try_commit_label_refs : Writer → Bool × Writer
try_commit_label_refs w = elim w.label_refs [
  | none ↦ (true, w)
  | some refs ↦ elim w.label_defs [
    | none ↦ (false, w)
    | some defs ↦
        let (done, m) = commit_label_refs defs refs w.mem in
        if done
        then (true, record w { mem = m; label_refs = some [] })
        else (false, record w { mem = m })
  ]
]

-- A literal in the order that the target has its data in.
abbrev pub load_data : Bool → ℕ → Mem → ℕ → ℕ
load_data big n m a = if big then load_be n m a else load_le n m a

abbrev pub store_data : Bool → ℕ → Mem → ℕ → ℕ → Mem
store_data big n m a v = if big then store_be n m a v else store_le n m a v

-- The slot of a literal of `size` bytes among `left` slots from `slot` on, or the end of them.
unfoldable pub find_slot : Bool → ℕ → Mem → ℕ → ℕ → ℕ → ℕ
find_slot big size m literal slot zero = slot
find_slot big size m literal slot (suc left) =
    let rest = find_slot big size m literal (slot + size) left in
    if load_data big size m slot == literal then slot else rest

-- One literal reference of a pass over those of one width: the slot, the store, the patch.
unfoldable pub commit_literal : Bool → ℕ → ℕ → LiteralRef → ℕ → ℕ → Mem → ℕ × Mem
commit_literal big size literal r first last m =
    let slot = find_slot big size m literal first ((last - first) / size) in
    let m' = if slot == last then store_data big size m slot literal else m in
    let last' = if slot == last then slot + size else last in
    (last', patch m' r.insn (bit_and (sdiv (sub64 slot r.insn) 4) 0x7ffff << 5))

-- A pass over the references, of which `literal_of` picks those of one width.
unfoldable pub commit_pass :
    (LiteralRef → Option ℕ) → Bool → ℕ → ℕ → List LiteralRef → ℕ → Mem → ℕ × Mem
commit_pass literal_of big size first [] last m = (last, m)
commit_pass literal_of big size first (r ∷ rs) last m = elim (literal_of r) [
  | some literal ↦
      let (last', m') = commit_literal big size literal r first last m in
      commit_pass literal_of big size first rs last' m'
  | none ↦ commit_pass literal_of big size first rs last m
]

-- The two passes: the 64-bit literals, then the 32-bit ones behind them.
unfoldable pub wide_literal : LiteralRef → Option ℕ
wide_literal r = elim r.width [ literal_64 ↦ some r.val | literal_32 ↦ none ]

unfoldable pub narrow_literal : LiteralRef → Option ℕ
narrow_literal r = elim r.width [ literal_32 ↦ some (u32 r.val) | literal_64 ↦ none ]

unfoldable pub commit_wide : Bool → ℕ → List LiteralRef → ℕ → Mem → ℕ × Mem
commit_wide big = commit_pass wide_literal big 8

unfoldable pub commit_narrow : Bool → ℕ → List LiteralRef → ℕ → Mem → ℕ × Mem
commit_narrow big = commit_pass narrow_literal big 4

-- hoox_arm64_writer_commit_literals
unfoldable pub commit_literals : Writer → Writer
commit_literals w = elim w.literal_refs [
  | none ↦ w
  | some [] ↦ w
  | some (r ∷ rs) ↦
      let (middle, m) = commit_wide w.host.big_endian w.code (r ∷ rs) w.code w.mem in
      let (last, m') = commit_narrow w.host.big_endian w.code (r ∷ rs) middle m in
      record w { mem = m'; code = last; pc = u64 (w.pc + (last - w.code)); literal_refs = some [] }
]
