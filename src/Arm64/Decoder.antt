-- ===== src/Arm64/Decoder.antt =====
-- src/disasm/hx_disasm_arm64.c: the AArch64 decoder, one function for each class of instruction
-- and their chain. The texts `mnemonic` and `op_str` are left out: nothing reads them.
pub mod Masks
pub mod Classes
use hoox.Prelude.{
  ℕ, zero, suc, ◌+◌, ◌-◌, ◌*◌, ◌/◌, ◌%◌, ◌^◌, ◌≤◌, ◌<◌, bit_and, bit_or, ◌≡◌, refl, Bool, true,
  false, not, ◌&&◌, ◌||◌, Option, none, some, List, [], ◌∷◌, ◌++◌, arith, leb, ltb, ◌==◌,
  if◌then◌else◌,
}
use hoox.Prelude.Words.{◌<<◌, ◌>>◌, u64, sign_extend}
use hoox.Memory.{Mem, load_le}
use hoox.Arm64.Reg
use hoox.Arm64.Reg.{x_reg, w_reg}

-- hx_arm64_insn, less HX_ARM64_INS_ADD and HX_ARM64_INS_ENDING, which nothing uses.
pub data InsnId : Type 0 where
  invalid adr adrp b bl blr blraa blraaz blrab blrabz br braa braaz brab brabz : InsnId
  cbnz cbz ldr ldrsw mov ret retaa retab stp svc tbnz tbz : InsnId

-- hx_arm64_op. An immediate is the bit pattern of its `int64_t`; `disp` of a memory operand is
-- always 0 here and its `index` always HX_ARM64_REG_INVALID.
pub data Op : Type 0 where
  reg : ℕ → Op
  imm : ℕ → Op
  mem : ℕ → ℕ → ℕ → Op

-- hx_insn with its hx_arm64. `operands` holds the first `op_count` of the array; `word` is the
-- instruction, whose bytes the structure keeps. `cc` 0 is HX_ARM64_CC_INVALID.
pub record Insn : Type 0 where
  pub id : InsnId
  pub address : ℕ
  pub word : ℕ
  pub cc : ℕ
  pub operands : List Op

abbrev pub insn : InsnId → ℕ → ℕ → List Op → Insn
insn id address w ops = record { id = id; address = address; word = w; cc = 0; operands = ops }

-- HX_ARM64_MAX_OPS
abbrev max_ops : ℕ
max_ops = 8

-- hx_fill_conservative_regs: the fields, then one register operand for each.
conservative_fields : ℕ → List ℕ
conservative_fields w =
    let op0 = bit_and (w >> 25) 0xf in
    let is_dp_reg = bit_and op0 0x7 == 0x5 in
    let is_dp_imm = bit_and op0 0xe == 0x8 in
    let is_ldst = bit_and (w >> 27) 1 == 1 && bit_and (w >> 25) 1 == 0 in
    let is_simd = bit_and op0 0x7 == 0x7 in
    let is_sys = bit_and op0 0xe == 0xa in
    if not (is_dp_reg || is_dp_imm || is_ldst || is_simd || is_sys)
    then []
    else (bit_and w 0x1f ∷ [])
      ++ ((if not is_sys then bit_and (w >> 5) 0x1f ∷ [] else [])
          ++ ((if is_dp_reg || is_ldst || is_simd then bit_and (w >> 16) 0x1f ∷ [] else [])
              ++ (if is_ldst then bit_and (w >> 10) 0x1f ∷ [] else [])))

-- The loop, from an array that holds `count` operands.
fill_regs : List ℕ → ℕ → List Op
fill_regs [] count = []
fill_regs (f ∷ fs) count =
    let rest = fill_regs fs (count + 1) in if ltb count max_ops then reg (x_reg f) ∷ rest else []

unfoldable pub conservative_regs : ℕ → List Op
unfolding conservative_fields fill_regs
conservative_regs w = fill_regs (conservative_fields w) 0

-- address + the sign-extended field, scaled by 4
abbrev target : ℕ → ℕ → ℕ → ℕ
target address field bits = u64 (address + sign_extend (field << 2) bits)

abbrev pub gp_reg : Bool → ℕ → ℕ
gp_reg is64 n = if is64 then x_reg n else w_reg n

module _ (w address : ℕ) where
  abbrev is64 : Bool
  is64 = not (bit_and w 0x80000000 == 0)

  -- bit 24, which tells CBNZ and TBNZ from CBZ and TBZ
  abbrev bit_24 : Bool
  bit_24 = not (bit_and w 0x01000000 == 0)

  abbrev imm19 : ℕ
  imm19 = bit_and (w >> 5) 0x7ffff

  -- PC-relative addressing: ADR and ADRP
  unfoldable pub decode_adr : Insn
  decode_adr =
      let rd = bit_and w 0x1f in
      let immlo = bit_and (w >> 29) 0x3 in
      let offset = sign_extend (bit_or (imm19 << 2) immlo) 21 in
      if not (bit_and w 0x80000000 == 0)
      then insn adrp address w (
          reg (x_reg rd) ∷ imm (u64 (bit_and address 0xfffffffffffff000 + u64 (offset << 12))) ∷ [])
      else insn adr address w (reg (x_reg rd) ∷ imm (u64 (address + offset)) ∷ [])

  -- unconditional branch, immediate: B and BL
  unfoldable pub decode_branch : Insn
  decode_branch =
      insn (if not (bit_and w 0x80000000 == 0) then bl else b) address w
        (imm (target address (bit_and w 0x03ffffff) 28) ∷ [])

  -- conditional branch: B.cond
  unfoldable pub decode_branch_cond : Insn
  decode_branch_cond = record {
    id = b;
    address = address;
    word = w;
    cc = bit_and w 0xf + 1;
    operands = imm (target address imm19 21) ∷ [];
  }

  -- compare and branch: CBZ and CBNZ
  unfoldable pub decode_compare_branch : Insn
  decode_compare_branch =
      insn (if bit_24 then cbnz else cbz) address w
        (reg (gp_reg is64 (bit_and w 0x1f)) ∷ imm (target address imm19 21) ∷ [])

  -- test and branch: TBZ and TBNZ
  unfoldable pub decode_test_branch : Insn
  decode_test_branch =
      let bit = bit_or (bit_and (w >> 31) 0x1 << 5) (bit_and (w >> 19) 0x1f) in
      insn (if bit_24 then tbnz else tbz) address w (
        reg (gp_reg is64 (bit_and w 0x1f))
        ∷ imm bit
        ∷ imm (target address (bit_and (w >> 5) 0x3fff) 16)
        ∷ [])

  -- load register from a literal: LDR and LDRSW; `none` for the form that is not handled
  unfoldable pub decode_load_literal : Option Insn
  decode_load_literal =
      let opc = bit_and (w >> 30) 0x3 in
      let rt = bit_and w 0x1f in
      let loads = λ (i : InsnId) (r : ℕ).
        some (insn i address w (reg r ∷ imm (target address imm19 21) ∷ [])) in
      if not (bit_and w 0x04000000 == 0)
      then (if opc == 0
          then loads ldr (Reg.s0 + rt)
          else if opc == 1
          then loads ldr (Reg.d0 + rt)
          else if opc == 2
          then loads ldr (Reg.q0 + rt)
          else none)
      else if opc == 0
      then loads ldr (w_reg rt)
      else if opc == 1
      then loads ldr (x_reg rt)
      else if opc == 2
      then loads ldrsw (x_reg rt)
      else none

  -- unconditional branch, register: BR, BLR, RET and the forms with pointer authentication
  unfoldable pub decode_branch_reg : Insn
  decode_branch_reg =
      let opc = bit_and (w >> 21) 0xf in
      let op3 = bit_and (w >> 10) 0x3f in
      let id =
        if opc == 0x0
        then if op3 == 0 then br else braaz
        else if opc == 0x1
        then if op3 == 0 then blr else blraaz
        else if opc == 0x2
        then ret
        else if opc == 0x8
        then braa
        else if opc == 0x9
        then blraa
        else if opc == 0xa
        then retaa
        else br in
      insn id address w (reg (x_reg (bit_and (w >> 5) 0x1f)) ∷ [])

  -- MOV of a register: ORR with the zero register
  unfoldable pub decode_mov : Insn
  decode_mov =
      insn mov address w
        (reg (gp_reg is64 (bit_and w 0x1f)) ∷ reg (gp_reg is64 (bit_and (w >> 16) 0x1f)) ∷ [])

  -- STP
  unfoldable pub decode_store_pair : Insn
  decode_store_pair =
      let wide = bit_and (w >> 30) 0x3 == 2 in
      insn stp address w (
        reg (gp_reg wide (bit_and w 0x1f))
        ∷ reg (gp_reg wide (bit_and (w >> 10) 0x1f))
        ∷ mem (x_reg (bit_and (w >> 5) 0x1f)) Reg.invalid 0
        ∷ [])

  -- The classes below the literal load, which it falls through to.
  unfoldable pub decode_rest : Insn
  decode_rest =
      if bit_and w 0xfe000000 == 0xd6000000
      then decode_branch_reg
      else if bit_and w 0xffe0001f == 0xd4000001
      then insn svc address w []
      else if bit_and w 0x7fe0ffe0 == 0x2a0003e0
      then decode_mov
      else if bit_and w 0x3c000000 == 0x28000000 && bit_and (w >> 22) 0x1 == 0
      then decode_store_pair
      else insn invalid address w (conservative_regs w)

  -- hx_decode_arm64
  unfoldable pub decode : Insn
  unfolding decode_rest
  decode =
      if bit_and w 0x1f000000 == 0x10000000
      then decode_adr
      else if bit_and w 0x7c000000 == 0x14000000
      then decode_branch
      else if bit_and w 0xff000010 == 0x54000000
      then decode_branch_cond
      else if bit_and w 0x7e000000 == 0x34000000
      then decode_compare_branch
      else if bit_and w 0x7e000000 == 0x36000000
      then decode_test_branch
      else if bit_and w 0x3b000000 == 0x18000000
      then elim decode_load_literal [ some i ↦ i | none ↦ decode_rest ]
      else decode_rest

-- hx_decode_arm64 as it is called: on the four bytes at `code`, for the address `address`.
unfoldable pub decode_at : Mem → ℕ → ℕ → Insn
decode_at m code address = decode (load_le 4 m code) address

-- hx_disasm_iter: the instruction, with the pointer, the size and the address behind it.
unfoldable pub disasm_iter : Mem → ℕ → ℕ → ℕ → Option (Insn × ℕ × ℕ × ℕ)
disasm_iter m code size address =
    if ltb size 4
    then none
    else some (decode_at m code address, code + 4, size - 4, u64 (address + 4))
