-- ===== src/Arm64/RoundTrip.antt =====
-- The writer of src/arch/arm64/hooxarm64writer.c against the decoder of
-- src/disasm/hx_disasm_arm64.c: what is written decodes to what was asked for.
pub mod Reach
pub mod Branch
pub mod Compare
pub mod Test
pub mod Registers
pub mod Move
pub mod Literal
pub mod Labels
pub mod Pool
use hoox.Prelude.{ℕ, ◌+◌, ◌*◌, ◌%◌, ◌<◌, ◌^◌, ◌≡◌, refl, ◌∙◌, ap, arith}
use hoox.Prelude.Words.{u32}
use hoox.Memory.{load_le, store_le}
use hoox.Memory.Laws.{load-store_le}
use hoox.Arm64.Decoder.{Insn, decode, decode_at}
use hoox.Arm64.Writer.{Writer}
use hoox.Arm64.Writer.Emit.{emit, put_instruction}
use hoox.Arm64.Writer.Flow.{IsQuiet, put_instruction-emit}

-- What a writer has put where another stood, read as an instruction there.
abbrev pub written : Writer → Writer → Insn
written before after = decode_at after.mem before.code before.pc

load-emit : (w : Writer) (insn : ℕ) → insn < 2 ^ 32 → load_le 4 (emit w insn).mem w.code ≡ insn
unfolding emit
load-emit w insn h = load-store_le 4 w.mem w.code (insn % 2 ^ 32) (omega arith) ∙ omega arith

-- A word that put_instruction wrote is decoded as itself.
pub written-put :
    (w : Writer) (insn : ℕ)
    → IsQuiet w
    → insn < 2 ^ 32
    → written w (put_instruction w insn) ≡ decode insn w.pc
unfolding decode_at
written-put w insn q h =
    ap (λ (v : Writer). decode (load_le 4 v.mem w.code) w.pc) (put_instruction-emit w insn q)
    ∙ ap (λ (x : ℕ). decode x w.pc) (load-emit w insn h)
