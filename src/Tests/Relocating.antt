-- ===== src/Tests/Relocating.antt =====
-- The relocator at concrete inputs.
use hoox.Prelude.{
  ℕ, zero, suc, ◌+◌, ◌*◌, ◌%◌, ◌≤◌, ◌<◌, ◌≡◌, refl, ◌≢◌, inl, true, false, [], ◌∷◌, ◌++◌, none,
  some, arith, ◌==◌, if◌then◌else◌,
}
use hoox.Prelude.Words.{u64}
use hoox.Memory.{Mem, store_le, load_le, store_bytes, store_byte, bytes_le, load_bytes, value_le}
use hoox.Arm64.Reg
use hoox.Arm64.Reg.{x_reg, w_reg}
use hoox.Arm64.Decoder.{
  Insn, Op, insn, decode, decode_rest, decode_at, decode_compare_branch, decode_mov, b, br,
}
use hoox.Arm64.Writer.{Writer, sign, literal_64}
use hoox.Arm64.Relocator.{
  Relocator, read_one, boundary, next_input, peek_next_write_insn, skip_one, write_one, write_all,
  relocate,
}
use hoox.Arm64.Relocator.Rewrite.{rewrite, is_unconditional, target_at}
use hoox.Arm64.Relocator.Ring.{IsRing, queue, queue-read_one, queue-skip_one}
use hoox.Arm64.Relocator.Reading.{ends_input, AllDecoded}
use hoox.Arm64.Relocator.Writing.{write_all-drains, relocate-answers}
use hoox.Arm64.Relocator.Total.{rewrite-answers}
use hoox.Arm64.Relocator.Jump.{rewrite_b-written}
use hoox.Arm64.Relocator.Verbatim.{depends_on_pc, write_one-verbatim}
use hoox.Tests.{start, writer, host, code}

-- A relocator that reads the code and writes it to 0x8000.
abbrev fresh : Relocator
fresh = record {
  input_start = 0x1000;
  input_cur = 0x1000;
  input_pc = 0x1000;
  slots = λ n. none;
  output = writer host code 0x8000;
  inpos = 0;
  outpos = 0;
  eob = false;
  eoi = false;
}

-- The same with its first instruction read.
abbrev first : Insn
first = decode 0xd10043ff 0x1000

abbrev read : Relocator
read = record fresh {
  input_cur = 0x1004;
  input_pc = 0x1004;
  slots = λ n. if n == 0 then some first else none;
  inpos = 1;
}

queue-read_one_example :
    (n : ℕ) × ((r' : Relocator) × ((read_one fresh ≡ some (n, r'))
        × (IsRing r' × (queue r' ≡ queue fresh ++ (some (next_input fresh) ∷ [])))))
queue-read_one_example = queue-read_one fresh refl (omega arith, (omega arith, omega arith))

queue-skip_one_example :
    (r' : Relocator) × ((skip_one read ≡ some r')
      × (IsRing r' × (queue read ≡ peek_next_write_insn read ∷ queue r')))
queue-skip_one_example = queue-skip_one read (omega arith, (omega arith, omega arith)) (omega arith)

read-AllDecoded : AllDecoded read
read-AllDecoded zero low high = (0xd10043ff, (0x1000, refl))
read-AllDecoded (suc k) low high = absurd (omega arith)

write_all-drains_example :
    (r' : Relocator) × ((write_all read ≡ some r') × ((r'.outpos ≡ 1) × (r'.inpos ≡ 1)))
write_all-drains_example =
    write_all-drains read ((omega arith, (omega arith, omega arith)), read-AllDecoded) (omega arith)

rewrite-answers_example : rewrite (decode 0xb4000060 0x1004) start ≢ none
rewrite-answers_example = rewrite-answers 0xb4000060 0x1004 start

write_one-verbatim_example :
    (r' : Relocator) × ((write_one read ≡ some (true, r'))
      × ((load_le 4 r'.output.mem 0x8000 ≡ first.word)
          × ((r'.output.code ≡ 0x8000 + 4) × (r'.outpos ≡ 0 + 1))))
unfolding decode decode_rest depends_on_pc
write_one-verbatim_example =
    write_one-verbatim read first (omega arith, (omega arith, omega arith)) (omega arith) refl
      (omega arith) refl (inl refl)

-- B 0x2000
abbrev jump : Insn
jump = insn b 0x100c 0x140003fd (Op.imm 0x2000 ∷ [])

rewrite_b-written_example :
    (w' : Writer) × ((rewrite jump start ≡ some (true, w'))
      × ((w'.literal_refs
            ≡ some (
                record { insn = 0x1000; val = sign start (target_at jump 0); width = literal_64 }
                ∷ []))
          × ((load_le 4 w'.mem 0x1000 ≡ 0x58000010)
              × (((decode_at w'.mem (0x1000 + 4) (u64 (0x1000 + 4))).id ≡ br)
                  × ((decode_at w'.mem (0x1000 + 4) (u64 (0x1000 + 4))).operands
                      ≡ Op.reg (Reg.x 16) ∷ [])))))
unfolding sign is_unconditional
rewrite_b-written_example = rewrite_b-written jump start refl refl refl (inl refl) (ground arith)

-- 12 bytes of the code: the subtraction, the CBZ and the MOV.
code-long : (k : ℕ) → (k + 1) * 4 < 12 → ends_input code 0x1000 k ≡ false
unfolding decode_at decode decode_rest decode_compare_branch decode_mov load_le load_bytes value_le
    store_le store_bytes store_byte bytes_le boundary
code-long zero h = refl
code-long (suc zero) h = refl
code-long (suc (suc k)) h = absurd (omega arith)

relocate-answers_example :
    (n : ℕ) × ((m' : Mem) × ((relocate host code 0x1000 12 0x8000 ≡ some (n, m'))
        × ((12 ≤ n) × ((n < 12 + 4) × (n % 4 ≡ 0)))))
relocate-answers_example =
    relocate-answers host code 0x1000 12 0x8000 (omega arith) (omega arith) (omega arith) code-long
