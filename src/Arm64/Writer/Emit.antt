-- ===== src/Arm64/Writer/Emit.antt =====
-- src/arch/arm64/hooxarm64writer.c: put_instruction, put_bytes, flush and clear.
use hoox.Prelude.{
  ℕ, zero, suc, ◌+◌, ◌-◌, ◌*◌, ◌/◌, ◌%◌, Bool, true, false, not, none, some, List, leb, ◌==◌,
  if◌then◌else◌, length,
}
use hoox.Prelude.Words.{u32, u64}
use hoox.Memory.{store_le, store_bytes}
use hoox.Arm64.Writer.{Writer, b, put_label, add_label_reference_here, reset_refs}
use hoox.Arm64.Writer.Commit.{commit_literals, try_commit_label_refs}

-- `*self->code++ = insn` and the new program counter.
unfoldable pub emit : Writer → ℕ → Writer
emit w insn = record w {
  mem = store_le 4 w.mem w.code (u32 insn);
  code = w.code + 4;
  pc = u64 (w.pc + 4);
}

-- The bytes of code since the earliest open literal, with 8 for each literal.
abbrev pub space_used : Writer → ℕ
space_used w =
    (w.code - w.earliest_literal_insn) / 4 * 4
    + elim w.literal_refs [ none ↦ 0 | some refs ↦ length refs * 8 ]

-- The end of hoox_arm64_writer_maybe_commit_literals: a branch round the literals, the literals,
-- and the label behind them, over the put_instruction that the branch goes through.
unfoldable pub spill : (Writer → ℕ → Writer) → Writer → Writer
spill put w =
    let after_literals = w.code in
    let w₁ =
      put (add_label_reference_here (record w { earliest_literal_insn = 0 }) after_literals b)
        0x14000000 in
    (put_label (commit_literals w₁) after_literals).1

-- hoox_arm64_writer_maybe_commit_literals
unfoldable pub maybe_commit_literals : (Writer → ℕ → Writer) → Writer → Writer
maybe_commit_literals put w =
    if w.earliest_literal_insn == 0
    then w
    else if leb (space_used w) 1048572
    then w
    else spill put w

-- hoox_arm64_writer_put_instruction calls itself once at most, for the branch round the
-- literals: that call finds no open literal. So two levels are modelled.
unfoldable pub put_at : ℕ → Writer → ℕ → Writer
put_at zero w insn = emit w insn
put_at (suc depth) w insn = maybe_commit_literals (put_at depth) (emit w insn)

unfoldable pub put_instruction : Writer → ℕ → Writer
put_instruction w insn = put_at 2 w insn

-- The memcpy of put_bytes, with the pointers moved behind it.
unfoldable pub copy_bytes : Writer → List ℕ → Writer
copy_bytes w bytes = record w {
  mem = store_bytes w.mem w.code bytes;
  code = w.code + length bytes;
  pc = u64 (w.pc + length bytes);
}

-- hoox_arm64_writer_put_bytes
unfoldable pub put_bytes : Writer → List ℕ → Bool × Writer
put_bytes w bytes =
    if not (length bytes % 4 == 0)
    then (false, w)
    else (true, maybe_commit_literals put_instruction (copy_bytes w bytes))

-- hoox_arm64_writer_flush
unfoldable pub flush : Writer → Bool × Writer
flush w =
    let (done, w') = try_commit_label_refs w in
    if done then (true, commit_literals w') else (false, reset_refs w')

-- hoox_arm64_writer_clear: the flush, and the release of the tables.
unfoldable pub clear : Writer → Writer
clear w =
    let w' = if w.flush_on_destroy then (flush w).1 else w in
    record w' { label_defs = none; label_refs = none; literal_refs = none }
