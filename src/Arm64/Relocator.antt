-- ===== src/Arm64/Relocator.antt =====
-- src/arch/arm64/hooxarm64relocator.c: reading instructions into the ring and writing them back
-- so that they run elsewhere. `none` is an assertion that ended the process.
pub mod Rewrite
pub mod Check
pub mod CheckLaws
pub mod CheckSearch
pub mod CheckTotal
pub mod Jump
pub mod Verbatim
pub mod Ring
pub mod Decoded
pub mod Answers
pub mod Total
pub mod Reading
pub mod Writing
use hoox.Prelude.{
  ℕ, zero, suc, ◌+◌, ◌-◌, ◌*◌, ◌/◌, ◌%◌, ◌^◌, Bool, true, false, not, ◌&&◌, ◌||◌, Option, none,
  some, List, [], ◌∷◌, ltb, leb, ◌==◌, if◌then◌else◌, ◌>>=◌,
}
use hoox.Prelude.Words.{u32, u64}
use hoox.Memory.{Mem, bytes_le}
use hoox.Arm64.Decoder.{
  Insn, decode_at, b, bl, blr, blraa, blraaz, blrab, blrabz, br, braa, braaz, brab, brabz, ret,
  retaa, retab, cbz, cbnz, tbz, tbnz,
}
use hoox.Arm64.Writer.{Writer}
use hoox.Arm64.Writer.Emit.{clear, put_bytes}
use hoox.Arm64.Writer
use hoox.Arm64.Relocator.Rewrite.{rewrite, is_unconditional}

-- HOOX_MAX_INPUT_INSN_COUNT
abbrev pub max_input_insn_count : ℕ
max_input_insn_count = 100

-- struct _HooxArm64Relocator, less the decoder's handle. `slots` are the entries of `input_insns`.
pub record Relocator : Type 0 where
  pub input_start : ℕ
  pub input_cur : ℕ
  pub input_pc : ℕ
  pub slots : ℕ → Option Insn
  pub output : Writer
  pub inpos : ℕ
  pub outpos : ℕ
  pub eob : Bool
  pub eoi : Bool

-- hoox_arm64_relocator_reset
unfoldable pub reset : Relocator → ℕ → Writer → Relocator
reset r input_code w = record r {
  input_start = input_code;
  input_cur = input_code;
  input_pc = input_code;
  output = w;
  inpos = 0;
  outpos = 0;
  eob = false;
  eoi = false;
}

-- hoox_arm64_relocator_init
unfoldable pub init : ℕ → Writer → Relocator
init input_code w = record {
  input_start = input_code;
  input_cur = input_code;
  input_pc = input_code;
  slots = λ _. none;
  output = w;
  inpos = 0;
  outpos = 0;
  eob = false;
  eoi = false;
}

-- hoox_arm64_relocator_inpos and hoox_arm64_relocator_outpos
abbrev pub in_slot : Relocator → ℕ
in_slot r = r.inpos % max_input_insn_count

abbrev pub out_slot : Relocator → ℕ
out_slot r = r.outpos % max_input_insn_count

-- hoox_arm64_relocator_increment_inpos and hoox_arm64_relocator_increment_outpos
unfoldable pub increment_inpos : Relocator → Option Relocator
increment_inpos r =
    let n = u32 (r.inpos + 1) in if ltb r.outpos n then some (record r { inpos = n }) else none

unfoldable pub increment_outpos : Relocator → Option Relocator
increment_outpos r =
    let n = u32 (r.outpos + 1) in if leb n r.inpos then some (record r { outpos = n }) else none

-- The switch of read_one: the new `eob` and `eoi`.
unfoldable pub boundary : Insn → Bool → Bool × Bool
boundary i eoi = elim i.id [
  | b ↦ (true, is_unconditional i)
  | br ↦ (true, true)
  | braa ↦ (true, true)
  | braaz ↦ (true, true)
  | brab ↦ (true, true)
  | brabz ↦ (true, true)
  | ret ↦ (true, true)
  | retaa ↦ (true, true)
  | retab ↦ (true, true)
  | bl ↦ (true, false)
  | blr ↦ (true, false)
  | blraa ↦ (true, false)
  | blraaz ↦ (true, false)
  | blrab ↦ (true, false)
  | blrabz ↦ (true, false)
  | cbz ↦ (true, false)
  | cbnz ↦ (true, false)
  | tbz ↦ (true, false)
  | tbnz ↦ (true, false)
  | _ ↦ (false, eoi)
]

-- The instruction that read_one is about to read.
abbrev pub next_input : Relocator → Insn
next_input r = decode_at r.output.mem r.input_cur r.input_pc

-- hoox_arm64_relocator_read_one: the number of bytes read so far, 0 at the end of input.
unfoldable pub read_one : Relocator → Option (ℕ × Relocator)
read_one r =
    let i = next_input r in
    let (eob, eoi) = boundary i r.eoi in
    let filled = record r {
      slots = λ n. if n == in_slot r then some i else r.slots n;
      eob = eob;
      eoi = eoi;
    } in
    if r.eoi
    then some (0, r)
    else increment_inpos filled >>= λ r'. some (
      u32 (r.input_cur + 4 - r.input_start),
      record r' { input_cur = r.input_cur + 4; input_pc = u64 (r.input_pc + 4) },
    )

-- hoox_arm64_relocator_peek_next_write_insn
unfoldable pub peek_next_write_insn : Relocator → Option Insn
peek_next_write_insn r = if r.outpos == r.inpos then none else r.slots (out_slot r)

-- hoox_arm64_relocator_peek_next_write_source: 0 is NULL.
unfoldable pub peek_next_write_source : Relocator → ℕ
peek_next_write_source r = elim (peek_next_write_insn r) [ none ↦ 0 | some i ↦ i.address ]

-- hoox_arm64_relocator_skip_one
unfoldable pub skip_one : Relocator → Option Relocator
skip_one = increment_outpos

-- hoox_arm64_relocator_write_one
unfoldable pub write_one : Relocator → Option (Bool × Relocator)
write_one r = elim (peek_next_write_insn r) [
  | none ↦ some (false, r)
  | some i ↦ increment_outpos r >>= λ r'. rewrite i r'.output >>= λ done. some (
    true,
    record r' { output = if done.0 then done.1 else (put_bytes done.1 (bytes_le 4 i.word)).1 },
  )
]

-- The loop of hoox_arm64_relocator_write_all, with the number of instructions written; at most
-- `fuel` rounds, and one for each instruction read is enough.
unfoldable pub write_loop : ℕ → ℕ → Relocator → Option (ℕ × Relocator)
write_loop zero count r = some (count, r)
write_loop (suc fuel) count r = write_one r >>= λ step.
    let rest = write_loop fuel (count + 1) step.1 in if step.0 then rest else some (count, step.1)

-- hoox_arm64_relocator_write_all
unfoldable pub write_all : Relocator → Option Relocator
write_all r =
    write_loop (suc (r.inpos - r.outpos)) 0 r >>= λ done. if ltb 0 done.0 then some done.1 else none

-- The loop of hoox_arm64_relocator_relocate: reading goes on until `min_bytes` are read. The
-- code asserts that each round read something. `fuel` bounds the rounds.
unfoldable pub read_until : ℕ → ℕ → Relocator → Option (ℕ × Relocator)
read_until zero min_bytes r = none
read_until (suc fuel) min_bytes r = read_one r >>= λ step.
    let rest = read_until fuel min_bytes step.1 in
    if step.0 == 0 then none else if ltb step.0 min_bytes then rest else some step

-- hoox_arm64_relocator_relocate, with the memory that it leaves. One round reads 4 bytes.
unfoldable pub relocate : Writer.Host → Mem → ℕ → ℕ → ℕ → Option (ℕ × Mem)
relocate h m source min_bytes destination =
    read_until (suc (min_bytes / 4)) min_bytes (init source (Writer.init h m destination))
    >>= λ step. write_all step.1 >>= λ r. some (step.0, (clear r.output).mem)
