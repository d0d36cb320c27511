-- ===== src/Tests/Writing.antt =====
-- Labels, literals and the flow of the writer at concrete inputs.
use mathlib.Core.List.{Memᴰ}
use hoox.Prelude.{
  ℕ, ◌+◌, ◌-◌, ◌%◌, ◌^◌, ◌≤◌, ◌≡◌, refl, ◌≢◌, ◌⊎◌, ◌↔◌, inl, true, List, [], ◌∷◌, some, arith, ◌==◌,
  if◌then◌else◌, false,
}
use hoox.Prelude.Words.{u64}
use hoox.Memory.{Mem, store_le, load_le, store_bytes, store_byte, bytes_le, load_bytes, value_le}
use hoox.Arm64.Decoder.{decode_at}
use hoox.Arm64.Writer.{
  Writer, LabelRef, LiteralRef, LabelRefType, literal_64, literal_32, put_label, lookup_label,
  patch,
}
use hoox.Arm64.Writer.Commit.{
  commit_label_refs, label_field, commit_literals, commit_wide, commit_narrow, commit_pass,
  commit_literal, wide_literal, narrow_literal, find_slot,
}
use hoox.Arm64.Writer.Emit.{put_at, put_instruction, put_bytes}
use hoox.Arm64.Writer
use hoox.Arm64.Writer.Spread.{Spread, nil, cons}
use hoox.Arm64.Writer.Flow.{IsInStep, put_at_depth, put_instruction-IsInStep, put_bytes-IsInStep}
use hoox.Arm64.Writer.{reset}
use hoox.Arm64.Writer.Emit.{flush}
use hoox.Arm64.Writer.Flush.{NothingWaits, flush-NothingWaits, flush_fails_again}
use hoox.Arm64.Writer.LabelTable.{label_of, put_label_lem}
use hoox.Arm64.Writer.Pool.{IsBefore}
use hoox.Arm64.RoundTrip.Labels.{destination, IsReady, commit_label_refs-leads}
use hoox.Arm64.RoundTrip.Pool.{IsOpenLoad, commit_literals-leads}
use hoox.Tests.{start, writer, host, blank}

put_at_depth_example : put_at 7 start 0xd503201f ≡ put_instruction start 0xd503201f
put_at_depth_example = put_at_depth 6 start 0xd503201f

put_instruction-IsInStep_example : IsInStep 0 (put_instruction start 0xd503201f)
put_instruction-IsInStep_example = put_instruction-IsInStep 0 start 0xd503201f refl

put_bytes-IsInStep_example : IsInStep 0 (put_bytes start (1 ∷ 2 ∷ 3 ∷ 4 ∷ [])).1
put_bytes-IsInStep_example = put_bytes-IsInStep 0 start (1 ∷ 2 ∷ 3 ∷ 4 ∷ []) refl

put_label_lem_example :
    let done = put_label start 5 in
    ((done.0 ≡ true) ↔ (label_of start 5 ≡ 0))
    × ((label_of done.1 5 ≡ (if label_of start 5 == 0 then 0x1000 else label_of start 5))
        × ((other : ℕ) → other ≢ 5 → label_of done.1 other ≡ label_of start other))
put_label_lem_example = put_label_lem start 5

-- A B and a CBZ to a label at 0x1010.
abbrev far_ref : LabelRef
far_ref = record { id = 9; type = Writer.b; insn = 0x1000 }

abbrev near_ref : LabelRef
near_ref = record { id = 9; type = Writer.cbz; insn = 0x1004 }

abbrev refs : List LabelRef
refs = far_ref ∷ near_ref ∷ []

abbrev labels : List (ℕ × ℕ)
labels = (9, 0x1010) ∷ []

abbrev labelled : Mem
labelled = store_le 4 (store_le 4 blank 0x1000 0x14000000) 0x1004 0xb4000003

refs-Spread : Spread (λ (r : LabelRef). r.insn) refs
refs-Spread = cons apart (cons (λ s i. elim i [ ]) nil)
  where
    apart : (s : LabelRef) → Memᴰ s (near_ref ∷ []) → (0x1000 + 4 ≤ s.insn) ⊎ (s.insn + 4 ≤ 0x1000)
    apart s (Memᴰ.head e) = rw e (inl (omega arith))
    apart s (Memᴰ.tail i) = elim i [ ]

refs-IsReady : (r : LabelRef) → Memᴰ r refs → IsReady labelled labels r
unfolding store_le store_bytes store_byte bytes_le load_le load_bytes value_le lookup_label
refs-IsReady r (Memᴰ.head e) = rw e ((refl, omega arith), (omega arith, (omega arith, refl)))
refs-IsReady r (Memᴰ.tail (Memᴰ.head e)) =
    rw e
      (((0xb4, (3, (omega arith, (refl, refl)))), omega arith), (omega arith, (omega arith, refl)))
refs-IsReady r (Memᴰ.tail (Memᴰ.tail i)) = elim i [ ]

commit_label_refs-leads_example :
    destination
      (decode_at
        (commit_label_refs labels refs labelled).1
        0x1004
        (u64 (0x1004 + 0x50000))).operands
    ≡ some (u64 (0x1010 + 0x50000))
unfolding commit_label_refs store_le store_bytes store_byte bytes_le load_le load_bytes value_le
    lookup_label label_field patch
commit_label_refs-leads_example =
    commit_label_refs-leads labels refs 0x50000 labelled (commit_label_refs labels refs labelled).1
      refs-Spread refs-IsReady refl near_ref (Memᴰ.tail (Memᴰ.head refl))

-- LDR X16 and LDR W1 of a 64-bit and a 32-bit literal.
abbrev wide_ref : LiteralRef
wide_ref = record { insn = 0x1000; val = 0x1122334455667788; width = literal_64 }

abbrev narrow_ref : LiteralRef
narrow_ref = record { insn = 0x1004; val = 0xcafe; width = literal_32 }

abbrev literals : List LiteralRef
literals = wide_ref ∷ narrow_ref ∷ []

abbrev loading : Writer
loading =
    record (writer host (store_le 4 (store_le 4 blank 0x1000 0x58000010) 0x1004 0x18000001)
      0x1008) { literal_refs = some literals; earliest_literal_insn = 0x1000 }

literals-Spread : Spread (λ (r : LiteralRef). r.insn) literals
literals-Spread = cons apart (cons (λ s i. elim i [ ]) nil)
  where
    apart :
        (s : LiteralRef) → Memᴰ s (narrow_ref ∷ []) → (0x1000 + 4 ≤ s.insn) ⊎ (s.insn + 4 ≤ 0x1000)
    apart s (Memᴰ.head e) = rw e (inl (omega arith))
    apart s (Memᴰ.tail i) = elim i [ ]

literals-IsBefore : (r : LiteralRef) → Memᴰ r literals → IsBefore loading.code loading.mem r
unfolding store_le store_bytes store_byte bytes_le load_le load_bytes value_le
literals-IsBefore r (Memᴰ.head e) = rw e (omega arith, (omega arith, omega arith))
literals-IsBefore r (Memᴰ.tail (Memᴰ.head e)) = rw e (omega arith, (omega arith, omega arith))
literals-IsBefore r (Memᴰ.tail (Memᴰ.tail i)) = elim i [ ]

literals-IsOpenLoad :
    (r : LiteralRef)
    → Memᴰ r literals
    → IsOpenLoad (load_le 4 loading.mem r.insn)
      × (((commit_literals loading).code ≤ r.insn + 2 ^ 20) × ((loading.code - r.insn) % 4 ≡ 0))
unfolding store_le store_bytes store_byte bytes_le load_le load_bytes value_le commit_literals
    commit_wide commit_narrow commit_pass commit_literal wide_literal narrow_literal find_slot patch
literals-IsOpenLoad r (Memᴰ.head e) =
    rw e ((1, (0, (16, (omega arith, (omega arith, (omega arith, refl)))))), (omega arith, refl))
literals-IsOpenLoad r (Memᴰ.tail (Memᴰ.head e)) =
    rw e ((0, (0, (1, (omega arith, (omega arith, (omega arith, refl)))))), (omega arith, refl))
literals-IsOpenLoad r (Memᴰ.tail (Memᴰ.tail i)) = elim i [ ]

commit_literals-leads_example :
    (slot : ℕ) × (((0x1008 ≤ slot) × (slot + 4 ≤ (commit_literals loading).code))
      × ((load_le 4 (commit_literals loading).mem slot ≡ 0xcafe)
          × (destination
                (decode_at (commit_literals loading).mem 0x1004 (u64 (0x1004 + 0))).operands
              ≡ some (u64 (slot + 0)))))
unfolding commit_literals commit_wide commit_narrow commit_pass commit_literal wide_literal
    narrow_literal find_slot load_le value_le load_bytes patch store_le store_bytes bytes_le
    store_byte
commit_literals-leads_example =
    commit_literals-leads loading literals 0 refl literals-Spread literals-IsBefore
      literals-IsOpenLoad (omega arith) narrow_ref (Memᴰ.tail (Memᴰ.head refl))

-- A branch to a label that was never put.
abbrev dangling : Writer
dangling = record start { label_refs = some (far_ref ∷ []) }

flush-NothingWaits_example : NothingWaits (flush dangling).1
flush-NothingWaits_example = flush-NothingWaits dangling

flush_fails_again_example :
    ((flush dangling).0 ≡ false)
    × (NothingWaits (reset (flush dangling).1 0x4000)
        × ((flush (reset (flush dangling).1 0x4000)).0 ≡ false))
flush_fails_again_example = flush_fails_again dangling (far_ref ∷ []) 0x4000 refl refl
