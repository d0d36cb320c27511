-- ===== src/Arm64/RoundTrip/Pool.antt =====
-- Loads from the literal pool: once it is written out, each leads to its literal.
use mathlib.Core.List.{Memᴰ}
use hoox.Prelude.{
  ℕ, ◌+◌, ◌-◌, ◌*◌, ◌%◌, ◌^◌, ◌≤◌, ◌<◌, ◌≡◌, refl, List, [], ◌∷◌, some, arith, bit_or,
}
use hoox.Prelude.Bits.{or_fields, or_split, or_zero}
use hoox.Prelude.Words.{u64, sub64, sdiv}
use hoox.Memory.{load_le}
use hoox.Arm64.Decoder.{decode, decode_at}
use hoox.Arm64.Decoder.Masks.{low_19}
use hoox.Arm64.Writer.{Writer, LiteralRef}
use hoox.Arm64.Writer.Commit.{load_data, commit_wide, commit_narrow, commit_literals}
use hoox.Arm64.Writer.Spread.{Spread}
use hoox.Arm64.Writer.Slots.{slot_field}
use hoox.Arm64.Writer.Pool.{slot_size, slot_value, IsBefore, commit_pool-IsServed}
use hoox.Arm64.RoundTrip.Reach.{reach_19}
use hoox.Arm64.RoundTrip.Labels.{destination, shift_reach}
use hoox.Arm64.RoundTrip.Literal.{literal_word, decode-literal_word}

-- The load that the writer leaves for a literal: its offset field is clear.
abbrev pub IsOpenLoad : ℕ → Type 0
IsOpenLoad word =
    (wide : ℕ) × ((vector : ℕ) × ((index : ℕ) × ((wide < 2)
          × ((vector < 2) × ((index < 32) × (word ≡ literal_word wide vector 0 index))))))

module _ (delta insn slot : ℕ) (slot_fits : slot < 2 ^ 64) (ahead : insn ≤ slot)
    (near : slot < insn + 2 ^ 20) (aligned : (slot - insn) % 4 ≡ 0) where
  abbrev words : ℕ
  words = sdiv (sub64 slot insn) 4

  leads_to_slot :
      (word : ℕ)
      → IsOpenLoad word
      → destination (decode (bit_or word (slot_field slot insn)) (u64 (insn + delta))).operands
        ≡ some (u64 (slot + delta))
  leads_to_slot word (wide, (vector, (index, (hw, (hv, (hi, e)))))) =
      let field = words % 2 ^ 19 in
      let top = (wide * 8 + 3) * 2 + vector in
      let joined : bit_or word (slot_field slot insn) ≡ literal_word wide vector field index =
        ground (
          arith,
          low_19 words,
          or_split 5 (top * 2 ^ 21) index field 0,
          or_zero index,
          or_fields 21 top field,
        ) in
      rw
        (
          joined,
          decode-literal_word wide vector field index (u64 (insn + delta)) (u64 (slot + delta)) hw
              hv (omega arith) hi
              (shift_reach delta insn slot _
                (reach_19 insn slot (omega arith) slot_fits (ground arith) (ground arith))),
        )
        refl

slot_size-lt : (r : LiteralRef) → 0 < slot_size r
slot_size-lt r = ground arith

-- What is written when there is a literal.
commit_literals-finish :
    (w : Writer) (refs : List LiteralRef) (r : LiteralRef)
    → w.literal_refs ≡ some refs
    → Memᴰ r refs
    → let big = w.host.big_endian in
      let middle = commit_wide big w.code refs w.code w.mem in
      let finish = commit_narrow big w.code refs middle.0 middle.1 in
      ((commit_literals w).mem ≡ finish.1) × ((commit_literals w).code ≡ finish.0)
unfolding commit_literals
commit_literals-finish w [] r e i = elim i [ ]
commit_literals-finish w (q ∷ rs) r e i = rw (commit_literals, e) (refl, refl)

-- Writing out the literal pool gives every literal reference, 64-bit or 32-bit, a slot in the pool
-- that holds its literal in the target's byte order, and the load, decoded where it runs, `delta`
-- behind where it was written, loads from that slot. The instructions must stand before the pool
-- and not overlap, hold loads with a clear offset field, be whole instructions away from the pool,
-- and have its end within 1 MiB and below 2 ^ 64.
pub commit_literals-leads :
    (w : Writer) (refs : List LiteralRef) (delta : ℕ)
    → w.literal_refs ≡ some refs
    → Spread (λ (r : LiteralRef). r.insn) refs
    → ((r : LiteralRef) → Memᴰ r refs → IsBefore w.code w.mem r)
    → ((r : LiteralRef)
        → Memᴰ r refs
        → IsOpenLoad (load_le 4 w.mem r.insn)
          × (((commit_literals w).code ≤ r.insn + 2 ^ 20) × ((w.code - r.insn) % 4 ≡ 0)))
    → (commit_literals w).code < 2 ^ 64
    → (r : LiteralRef) → Memᴰ r refs
    → (slot : ℕ) × (((w.code ≤ slot) × (slot + slot_size r ≤ (commit_literals w).code))
        × ((load_data w.host.big_endian (slot_size r) (commit_literals w).mem slot ≡ slot_value r)
            × (destination
                  (decode_at (commit_literals w).mem r.insn (u64 (r.insn + delta))).operands
                ≡ some (u64 (slot + delta)))))
unfolding decode_at
commit_literals-leads w refs delta e spread before loads fits r i =
    let (same_mem, same_code) = commit_literals-finish w refs r e i in
    let (b, (word, val)) = before r i in
    let (clear, (near, aligned)) = loads r i in
    let (slot, (k, (at, ((low, high), (held, joined))))) =
      commit_pool-IsServed w.host.big_endian w.code refs w.mem spread before r i in
    let small = slot_size-lt r in
    (
      slot,
      rw (same_mem, same_code, joined)
          (
            (low, high),
            (
              held,
              leads_to_slot delta r.insn slot (omega arith) (omega arith) (omega arith)
                  (omega arith) _ clear,
            ),
          ),
    )
