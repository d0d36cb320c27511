-- ===== src/Arm64/Writer/Moves.antt =====
-- The moves, arithmetic and system instructions of src/arch/arm64/hooxarm64writer.c.
use hoox.Prelude.{
  ℕ, ◌+◌, ◌-◌, ◌%◌, ◌^◌, bit_and, Bool, not, ◌&&◌, ◌||◌, Option, some, ◌==◌, if◌then◌else◌, ◌>>=◌,
}
use hoox.Prelude.Words.{◌<<◌, ◌or◌, u8, u32}
use hoox.Arm64.Reg
use hoox.Arm64.Reg.{RegInfo, describe_reg, mreg_31}
use hoox.Arm64.Writer.{Writer}
use hoox.Arm64.Writer.Emit.{put_instruction}
use hoox.Arm64.Writer.Branches.{refuse, put}

-- hoox_arm64_writer_put_mov_reg_reg
unfoldable pub put_mov_reg_reg : Writer → ℕ → ℕ → Option (Bool × Writer)
put_mov_reg_reg w dst_reg src_reg = do
  rd ← describe_reg dst_reg
  rs ← describe_reg src_reg
  let src_is_zero_reg = src_reg == Reg.xzr || src_reg == Reg.wzr
  if not (rd.width == rs.width)
      then refuse w
      else if rd.meta == mreg_31 || (not src_is_zero_reg && rs.meta == mreg_31)
      then put w (0x91000000 or rd.meta or rs.meta << 5)
      else put w (rd.sf or 0x2a000000 or rd.meta or mreg_31 << 5 or rs.meta << 16)

-- hoox_arm64_writer_put_mov_reg_nzcv
unfoldable pub put_mov_reg_nzcv : Writer → ℕ → Option Writer
put_mov_reg_nzcv w reg = do ri ← describe_reg reg; some (put_instruction w (0xd53b4200 or ri.meta))

-- hoox_arm64_writer_put_mov_nzcv_reg
unfoldable pub put_mov_nzcv_reg : Writer → ℕ → Option Writer
put_mov_nzcv_reg w reg = do ri ← describe_reg reg; some (put_instruction w (0xd51b4200 or ri.meta))

-- hoox_arm64_writer_put_uxtw_reg_reg
unfoldable pub put_uxtw_reg_reg : Writer → ℕ → ℕ → Option (Bool × Writer)
put_uxtw_reg_reg w dst_reg src_reg = do
  rd ← describe_reg dst_reg
  rs ← describe_reg src_reg
  if not (rd.width == 64) || not (rs.width == 32)
      then refuse w
      else put w (0xd3407c00 or rs.meta << 5 or rd.meta)

-- The body of put_add_reg_reg_imm and put_sub_reg_reg_imm.
unfoldable pub put_reg_imm : ℕ → Writer → ℕ → ℕ → ℕ → Option (Bool × Writer)
put_reg_imm opcode w dst_reg left_reg right_value = do
  rd ← describe_reg dst_reg
  rl ← describe_reg left_reg
  if not (rd.width == rl.width)
      then refuse w
      else put w (u32 (rd.sf or opcode or rd.meta or rl.meta << 5 or right_value << 10))

-- hoox_arm64_writer_put_add_reg_reg_imm
unfoldable pub put_add_reg_reg_imm : Writer → ℕ → ℕ → ℕ → Option (Bool × Writer)
put_add_reg_reg_imm = put_reg_imm 0x11000000

-- hoox_arm64_writer_put_sub_reg_reg_imm
unfoldable pub put_sub_reg_reg_imm : Writer → ℕ → ℕ → ℕ → Option (Bool × Writer)
put_sub_reg_reg_imm = put_reg_imm 0x51000000

-- The body of the three-register functions: the opcode, from the description of the destination.
unfoldable pub put_reg_reg_reg : (RegInfo → ℕ) → Writer → ℕ → ℕ → ℕ → Option (Bool × Writer)
put_reg_reg_reg opcode w dst_reg left_reg right_reg = do
  rd ← describe_reg dst_reg
  rl ← describe_reg left_reg
  rr ← describe_reg right_reg
  if not (rd.width == rl.width) || not (rd.width == rr.width)
      then refuse w
      else put w (opcode rd or rd.meta or rl.meta << 5 or rr.meta << 16)

-- hoox_arm64_writer_put_add_reg_reg_reg
unfoldable pub put_add_reg_reg_reg : Writer → ℕ → ℕ → ℕ → Option (Bool × Writer)
put_add_reg_reg_reg =
    put_reg_reg_reg (λ rd. rd.sf or 0xb000000 or (if rd.width == 64 then 0x8000000 else 0))

-- hoox_arm64_writer_put_sub_reg_reg_reg
unfoldable pub put_sub_reg_reg_reg : Writer → ℕ → ℕ → ℕ → Option (Bool × Writer)
put_sub_reg_reg_reg = put_reg_reg_reg (λ rd. rd.sf or 0x4b000000)

-- hoox_arm64_writer_put_eor_reg_reg_reg
unfoldable pub put_eor_reg_reg_reg : Writer → ℕ → ℕ → ℕ → Option (Bool × Writer)
put_eor_reg_reg_reg =
    put_reg_reg_reg (λ rd. (if rd.width == 64 then 0x80000000 else 0) or 0x4a000000)

-- hoox_arm64_writer_put_ubfm
unfoldable pub put_ubfm : Writer → ℕ → ℕ → ℕ → ℕ → Option (Bool × Writer)
put_ubfm w dst_reg src_reg immr imms = do
  rd ← describe_reg dst_reg
  rn ← describe_reg src_reg
  if not (rn.width == rd.width)
      then refuse w
      else if not (bit_and (imms or immr) 0xc0 == 0)
      then refuse w
      else put w (
          (if rd.width == 64 then 0x80400000 else 0)
          or 0x53000000
          or immr << 16
          or imms << 10
          or rn.meta << 5
          or rd.meta)

-- hoox_arm64_writer_put_lsl_reg_imm. The arguments of put_ubfm are computed on `unsigned int`.
unfoldable pub put_lsl_reg_imm : Writer → ℕ → ℕ → ℕ → Option (Bool × Writer)
put_lsl_reg_imm w dst_reg src_reg shift = do
  rd ← describe_reg dst_reg
  if rd.width == 32 && not (bit_and shift 0xe0 == 0)
        || rd.width == 64 && not (bit_and shift 0xc0 == 0)
      then refuse w
      else put_ubfm w dst_reg src_reg (u8 (u32 (2 ^ 32 - shift) % rd.width))
          (u8 (u32 (rd.width - 1 + 2 ^ 32 - shift)))

-- hoox_arm64_writer_put_lsr_reg_imm
unfoldable pub put_lsr_reg_imm : Writer → ℕ → ℕ → ℕ → Option (Bool × Writer)
put_lsr_reg_imm w dst_reg src_reg shift = do
  rd ← describe_reg dst_reg
  if rd.width == 32 && not (bit_and shift 0xe0 == 0)
      then refuse w
      else put_ubfm w dst_reg src_reg shift (u8 (rd.width - 1))

-- hoox_arm64_writer_put_cmp_reg_reg
unfoldable pub put_cmp_reg_reg : Writer → ℕ → ℕ → Option (Bool × Writer)
put_cmp_reg_reg w reg_a reg_b = do
  ra ← describe_reg reg_a
  rb ← describe_reg reg_b
  if not (ra.width == rb.width)
      then refuse w
      else put w (ra.sf or 0x6b00001f or ra.meta << 5 or rb.meta << 16)

-- hoox_arm64_writer_put_xpaci_reg
unfoldable pub put_xpaci_reg : Writer → ℕ → Option (Bool × Writer)
put_xpaci_reg w reg = do
  ri ← describe_reg reg
  if not (ri.width == 64) then refuse w else put w (0xdac143e0 or ri.meta)

-- hoox_arm64_writer_put_nop
unfoldable pub put_nop : Writer → Writer
put_nop w = put_instruction w 0xd503201f

-- hoox_arm64_writer_put_brk_imm
unfoldable pub put_brk_imm : Writer → ℕ → Writer
put_brk_imm w imm = put_instruction w (0xd4200000 or imm << 5)

-- hoox_arm64_writer_put_mrs
unfoldable pub put_mrs : Writer → ℕ → ℕ → Option (Bool × Writer)
put_mrs w dst_reg system_reg = do
  rt ← describe_reg dst_reg
  if not (rt.width == 64) || not (bit_and system_reg 0x8000 == 0)
      then refuse w
      else put w (0xd5300000 or system_reg << 5 or rt.meta)
