-- ===== src/Arm64/Writer/Branches.antt =====
-- The branch instructions of src/arch/arm64/hooxarm64writer.c. A put function returns what the
-- code returns, with the writer; `none` is an assertion that ended the process.
use hoox.Prelude.{
  ℕ, ◌+◌, ◌-◌, ◌^◌, bit_and, Bool, true, false, not, ◌||◌, Option, none, some, leb, ◌==◌,
  if◌then◌else◌, ◌>>=◌,
}
use hoox.Prelude.Words.{◌<<◌, ◌>>◌, ◌or◌, u32, sub64, sdiv, srem, is_within_int}
use hoox.Arm64.Reg.{describe_reg}
use hoox.Arm64.Writer.{Writer, b, b_cond, bl, cbz, cbnz, tbz, tbnz, add_label_reference_here, strip}
use hoox.Arm64.Writer.Emit.{put_instruction}

-- `return FALSE;`, and the end of a function that wrote an instruction
abbrev pub refuse : Writer → Option (Bool × Writer)
refuse w = some (false, w)

abbrev pub put : Writer → ℕ → Option (Bool × Writer)
put w insn = some (true, put_instruction w insn)

-- hoox_arm64_writer_can_branch_directly_between
unfoldable pub can_branch_directly_between : Writer → ℕ → ℕ → Bool
can_branch_directly_between w source target =
    is_within_int 28 (sub64 (strip w target) (strip w source))

-- The body that put_b_imm and put_bl_imm share but for the opcode.
unfoldable pub put_branch_imm : ℕ → Writer → ℕ → Bool × Writer
put_branch_imm opcode w address =
    let distance = sub64 (strip w address) w.pc in
    if not (is_within_int 28 distance) || not (srem distance 4 == 0)
    then (false, w)
    else (true, put_instruction w (opcode or bit_and (sdiv distance 4) 0x03ffffff))

-- hoox_arm64_writer_put_b_imm
unfoldable pub put_b_imm : Writer → ℕ → Bool × Writer
put_b_imm = put_branch_imm 0x14000000

-- hoox_arm64_writer_put_bl_imm
unfoldable pub put_bl_imm : Writer → ℕ → Bool × Writer
put_bl_imm = put_branch_imm 0x94000000

-- hoox_arm64_writer_put_b_label
unfoldable pub put_b_label : Writer → ℕ → Writer
put_b_label w id = put_instruction (add_label_reference_here w id b) 0x14000000

-- hoox_arm64_writer_put_b_cond_label
unfoldable pub put_b_cond_label : Writer → ℕ → ℕ → Writer
put_b_cond_label w cc id =
    put_instruction (add_label_reference_here w id b_cond) (0x54000000 or u32 (cc + 2 ^ 32 - 1))

-- hoox_arm64_writer_put_bl_label
unfoldable pub put_bl_label : Writer → ℕ → Writer
put_bl_label w id = put_instruction (add_label_reference_here w id bl) 0x94000000

-- The bodies of put_br_reg_with_extra, put_blr_reg_with_extra and put_ret_reg.
unfoldable pub put_reg_branch : ℕ → Writer → ℕ → ℕ → Option (Bool × Writer)
put_reg_branch opcode w reg extra = do
  ri ← describe_reg reg
  if not (ri.width == 64) then refuse w else put w (opcode or ri.meta << 5 or extra)

abbrev auth_extra : Writer → ℕ
auth_extra w = if w.host.ptrauth then 0x81f else 0

-- hoox_arm64_writer_put_br_reg_with_extra
unfoldable pub put_br_reg_with_extra : Writer → ℕ → ℕ → Option (Bool × Writer)
put_br_reg_with_extra = put_reg_branch 0xd61f0000

-- hoox_arm64_writer_put_br_reg
unfoldable pub put_br_reg : Writer → ℕ → Option (Bool × Writer)
put_br_reg w reg = put_br_reg_with_extra w reg (auth_extra w)

-- hoox_arm64_writer_put_br_reg_no_auth
unfoldable pub put_br_reg_no_auth : Writer → ℕ → Option (Bool × Writer)
put_br_reg_no_auth w reg = put_br_reg_with_extra w reg 0

-- hoox_arm64_writer_put_blr_reg_with_extra
unfoldable pub put_blr_reg_with_extra : Writer → ℕ → ℕ → Option (Bool × Writer)
put_blr_reg_with_extra = put_reg_branch 0xd63f0000

-- hoox_arm64_writer_put_blr_reg
unfoldable pub put_blr_reg : Writer → ℕ → Option (Bool × Writer)
put_blr_reg w reg = put_blr_reg_with_extra w reg (auth_extra w)

-- hoox_arm64_writer_put_blr_reg_no_auth
unfoldable pub put_blr_reg_no_auth : Writer → ℕ → Option (Bool × Writer)
put_blr_reg_no_auth w reg = put_blr_reg_with_extra w reg 0

-- hoox_arm64_writer_put_ret
unfoldable pub put_ret : Writer → Writer
put_ret w = put_instruction w (0xd65f0000 or 30 << 5)

-- hoox_arm64_writer_put_ret_reg
unfoldable pub put_ret_reg : Writer → ℕ → Option (Bool × Writer)
put_ret_reg w reg = put_reg_branch 0xd65f0000 w reg 0

-- The word offset to a target, 0 for the target 0 that a label is to fill in; `none` where it is
-- not a multiple of 4 or does not fit the field.
unfoldable pub word_offset : ℕ → Writer → ℕ → Option ℕ
word_offset bits w target =
    if target == 0
    then some 0
    else let distance = sub64 target w.pc in
      if not (srem distance 4 == 0) || not (is_within_int bits (sdiv distance 4))
      then none
      else some (sdiv distance 4)

-- hoox_arm64_writer_put_cbx_op_reg_imm
unfoldable pub put_cbx_op_reg_imm : Writer → ℕ → ℕ → ℕ → Option (Bool × Writer)
put_cbx_op_reg_imm w op reg target = do
  ri ← describe_reg reg
  elim (word_offset 19 w target) [
    | none ↦ refuse w
    | some imm19 ↦
        put w (u32 (ri.sf or 0x34000000 or op << 24 or bit_and imm19 0x7ffff << 5 or ri.meta))
  ]

-- hoox_arm64_writer_put_cbz_reg_imm and hoox_arm64_writer_put_cbnz_reg_imm
unfoldable pub put_cbz_reg_imm : Writer → ℕ → ℕ → Option (Bool × Writer)
put_cbz_reg_imm w = put_cbx_op_reg_imm w 0

unfoldable pub put_cbnz_reg_imm : Writer → ℕ → ℕ → Option (Bool × Writer)
put_cbnz_reg_imm w = put_cbx_op_reg_imm w 1

-- hoox_arm64_writer_put_cbz_reg_label and hoox_arm64_writer_put_cbnz_reg_label
unfoldable pub put_cbz_reg_label : Writer → ℕ → ℕ → Option (Bool × Writer)
put_cbz_reg_label w reg id = put_cbx_op_reg_imm (add_label_reference_here w id cbz) 0 reg 0

unfoldable pub put_cbnz_reg_label : Writer → ℕ → ℕ → Option (Bool × Writer)
put_cbnz_reg_label w reg id = put_cbx_op_reg_imm (add_label_reference_here w id cbnz) 1 reg 0

-- hoox_arm64_writer_put_tbx_op_reg_imm_imm
unfoldable pub put_tbx_op_reg_imm_imm : Writer → ℕ → ℕ → ℕ → ℕ → Option (Bool × Writer)
put_tbx_op_reg_imm_imm w op reg bit target = do
  ri ← describe_reg reg
  if leb ri.width bit then refuse w else elim (word_offset 14 w target) [
    | none ↦ refuse w
    | some imm14 ↦ put w (
        u32 (
          u32 ((bit >> 5) << 31)
          or 0x36000000
          or op << 24
          or bit_and bit 0x1f << 19
          or bit_and imm14 0x3fff << 5
          or ri.meta))
  ]

-- hoox_arm64_writer_put_tbz_reg_imm_imm and hoox_arm64_writer_put_tbnz_reg_imm_imm
unfoldable pub put_tbz_reg_imm_imm : Writer → ℕ → ℕ → ℕ → Option (Bool × Writer)
put_tbz_reg_imm_imm w = put_tbx_op_reg_imm_imm w 0

unfoldable pub put_tbnz_reg_imm_imm : Writer → ℕ → ℕ → ℕ → Option (Bool × Writer)
put_tbnz_reg_imm_imm w = put_tbx_op_reg_imm_imm w 1

-- hoox_arm64_writer_put_tbz_reg_imm_label and hoox_arm64_writer_put_tbnz_reg_imm_label
unfoldable pub put_tbz_reg_imm_label : Writer → ℕ → ℕ → ℕ → Option (Bool × Writer)
put_tbz_reg_imm_label w reg bit id =
    put_tbx_op_reg_imm_imm (add_label_reference_here w id tbz) 0 reg bit 0

unfoldable pub put_tbnz_reg_imm_label : Writer → ℕ → ℕ → ℕ → Option (Bool × Writer)
put_tbnz_reg_imm_label w reg bit id =
    put_tbx_op_reg_imm_imm (add_label_reference_here w id tbnz) 1 reg bit 0
