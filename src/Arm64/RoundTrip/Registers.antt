-- ===== src/Arm64/RoundTrip/Registers.antt =====
-- The branches through a register.
use hoox.Prelude.{
  ℕ, ◌+◌, ◌*◌, ◌/◌, ◌^◌, ◌<◌, ◌≡◌, refl, ◌∙◌, ap, ◌⊎◌, true, [], ◌∷◌, some, arith, ◌==◌,
  if◌then◌else◌,
}
use hoox.Prelude.Bits.{or_fields, or_split, or_zero, zero_or}
use hoox.Prelude.Words.{◌<<◌, ◌or◌}
use hoox.Arm64.Reg.{RegInfo, describe_reg, x_reg}
use hoox.Arm64.Reg.Laws.{IsGeneral, IsGeneral-x_reg, meta-lt}
use hoox.Arm64.Decoder.{insn, InsnId, Op, decode, decode_branch_reg, br, braaz, blr, blraaz, ret}
use hoox.Arm64.Decoder.Classes.{decode_of_branch_reg}
use hoox.Arm64.Decoder.Masks.{low_5, low_4, low_6}
use hoox.Arm64.Writer.{Writer}
use hoox.Arm64.Writer.Emit.{put_instruction}
use hoox.Arm64.Writer.Branches.{put_reg_branch, put_br_reg, put_br_reg_with_extra}
use hoox.Arm64.Writer.Flow.{IsQuiet}
use hoox.Arm64.RoundTrip.{written, written-put}

-- The word of a branch through a register, by its fields.
abbrev branch_word : ℕ → ℕ → ℕ → ℕ
branch_word opc extra index = ((0x6b0 + opc) * 2 ^ 5 + 31) * 2 ^ 16 + extra + index * 2 ^ 5

-- Only the three operations without a key in the opcode, and the two bits that say there is one.
decode-branch_word :
    (opc extra index pc : ℕ)
    → opc < 3
    → (extra ≡ 0) ⊎ (extra ≡ 0x81f)
    → index < 32
    → let word = branch_word opc extra index in
      decode word pc
      ≡ insn
          (if opc == 0
            then if extra == 0 then br else braaz
            else if opc == 1
            then if extra == 0 then blr else blraaz
            else ret)
          pc
          word
          (Op.reg (x_reg index) ∷ [])
unfolding decode_branch_reg
decode-branch_word opc extra index pc ho he hi =
    let word = branch_word opc extra index in
    decode_of_branch_reg word pc (ground arith)
    ∙ ground (arith, low_4 (word / 2 ^ 21), low_6 (word / 2 ^ 10), low_5 (word / 2 ^ 5))

-- The joining of the fields in put_reg_branch.
join-branch_word :
    (opc extra index : ℕ)
    → (extra ≡ 0) ⊎ (extra ≡ 0x81f)
    → index < 32
    → ((((0x6b0 + opc) * 2 ^ 5 + 31) * 2 ^ 16) or index << 5 or extra) ≡ branch_word opc extra index
join-branch_word opc extra index he hi =
    let top = (0x6b0 + opc) * 2 ^ 5 + 31 in
    let aligned = or_split 5 (top * 2 ^ 11 + index) 0 64 31 (omega arith) (omega arith) in
    ground (
      arith,
      or_fields 16 top (index * 2 ^ 5),
      or_zero ((top * 2 ^ 11 + index) * 2 ^ 5),
      aligned,
      or_split 6 (top * 2 ^ 5) index 1 0,
      or_fields 1 (top * 2 ^ 4) 1,
      or_zero index,
      zero_or 31,
    )

-- Which operation a branch through a register is.
abbrev branch_id : ℕ → ℕ → InsnId
branch_id opc extra =
    if opc == 0
    then if extra == 0 then br else braaz
    else if opc == 1
    then if extra == 0 then blr else blraaz
    else ret

module _ (w : Writer) (reg : ℕ) (quiet : IsQuiet w) where
  put_reg_branch-wrote :
      (opcode extra : ℕ) {w' : Writer}
      → put_reg_branch opcode w reg extra ≡ some (true, w')
      → (ri : RegInfo) × ((describe_reg reg ≡ some ri)
          × ((ri.width ≡ 64) × (w' ≡ put_instruction w (opcode or ri.meta << 5 or extra))))
  unfolding put_reg_branch
  put_reg_branch-wrote opcode extra e = ground arith

  put_reg_branch-decoded :
      (opc extra : ℕ) (ri : RegInfo)
      → opc < 3
      → (extra ≡ 0) ⊎ (extra ≡ 0x81f)
      → describe_reg reg ≡ some ri
      → written w
          (put_instruction w ((((0x6b0 + opc) * 2 ^ 5 + 31) * 2 ^ 16) or ri.meta << 5 or extra))
        ≡ insn
            (branch_id opc extra)
            w.pc
            (branch_word opc extra ri.meta)
            (Op.reg (x_reg ri.meta) ∷ [])
  put_reg_branch-decoded opc extra ri ho he described =
      let index = meta-lt reg described in
      ap (λ (word : ℕ). written w (put_instruction w word))
        (join-branch_word opc extra ri.meta he index)
      ∙ written-put w _ quiet (ground arith)
      ∙ decode-branch_word opc extra ri.meta w.pc ho he index

  put_reg_branch-written :
      (opc extra : ℕ) {w' : Writer}
      → opc < 3
      → (extra ≡ 0) ⊎ (extra ≡ 0x81f)
      → IsGeneral reg
      → put_reg_branch (((0x6b0 + opc) * 2 ^ 5 + 31) * 2 ^ 16) w reg extra ≡ some (true, w')
      → ((written w w').id ≡ branch_id opc extra) × ((written w w').operands ≡ Op.reg reg ∷ [])
  put_reg_branch-written opc extra {w'} ho he general e =
      let (ri, (described, (wide, wrote))) =
        put_reg_branch-wrote (((0x6b0 + opc) * 2 ^ 5 + 31) * 2 ^ 16) extra e in
      let decoded = put_reg_branch-decoded opc extra ri ho he described in
      rw (wrote, decoded)
        (refl, ap (λ (r : ℕ). Op.reg r ∷ []) (IsGeneral-x_reg reg general described wide))

  -- Where the literal pool stays closed, a jump through a general register but SP that put_br_reg
  -- accepts is decoded as one through that register: BR, or BRAAZ where the host has pointer
  -- authentication.
  pub put_br_reg-written :
      {w' : Writer}
      → IsGeneral reg
      → put_br_reg w reg ≡ some (true, w')
      → ((written w w').id ≡ (if w.host.ptrauth then braaz else br))
        × ((written w w').operands ≡ Op.reg reg ∷ [])
  unfolding put_br_reg put_br_reg_with_extra
  put_br_reg-written general e =
      let extra : ℕ = if w.host.ptrauth then 0x81f else 0 in
      let done = put_reg_branch-written 0 extra (omega arith) (ground arith) general e in
      ground (arith, done)
