-- ===== src/Arm64/Relocator/Rewrite.antt =====
-- The rewrite functions of src/arch/arm64/hooxarm64relocator.c: what a position-dependent
-- instruction becomes. Each returns whether it rewrote, with the writer.
use hoox.Prelude.{
  ℕ, zero, suc, ◌+◌, ◌-◌, Bool, true, false, ◌||◌, Option, none, some, List, [], ◌∷◌, ◌==◌,
  if◌then◌else◌, ◌>>=◌,
}
use hoox.Prelude.Words.{◌<<◌, ◌or◌, u32, u64}
use hoox.Arm64.Reg
use hoox.Arm64.Reg.{between}
use hoox.Arm64.Decoder.{Insn, Op, ldr, ldrsw, adr, adrp, b, bl, cbz, cbnz, tbz, tbnz}
use hoox.Arm64.Writer.{Writer, put_label, sign}
use hoox.Arm64.Writer.Branches.{
  put_b_label, put_b_cond_label, put_br_reg, put_blr_reg, put_cbz_reg_label, put_cbnz_reg_label,
  put_tbz_reg_imm_label, put_tbnz_reg_imm_label,
}
use hoox.Arm64.Writer.Loads.{put_ldr_reg_address, put_ldr_reg_reg_offset, put_ldrsw_reg_reg_offset}
use hoox.Arm64.Writer.Pairs.{put_push_reg_reg, put_pop_reg_reg}
use hoox.Arm64.Writer.Calls.{after}

-- The operand of a number, as `operands[n]` reads it: 0 where there is none of the kind.
abbrev pub reg_at : List Op → ℕ → ℕ
reg_at (Op.reg r ∷ ops) zero = r
reg_at [] n = 0
reg_at (op ∷ ops) zero = 0
reg_at (op ∷ ops) (suc n) = reg_at ops n

abbrev pub imm_at : List Op → ℕ → Option ℕ
imm_at (Op.imm v ∷ ops) zero = some v
imm_at [] n = none
imm_at (op ∷ ops) zero = none
imm_at (op ∷ ops) (suc n) = imm_at ops n

-- `target->imm` where the code does not look at the type
abbrev pub target_at : Insn → ℕ → ℕ
target_at i n = elim (imm_at i.operands n) [ none ↦ 0 | some v ↦ v ]

-- hoox_arm64_branch_is_unconditional: HX_ARM64_CC_INVALID, HX_ARM64_CC_AL and HX_ARM64_CC_NV.
unfoldable pub is_unconditional : Insn → Bool
is_unconditional i = i.cc == 0 || i.cc == 15 || i.cc == 16

abbrev pub rewrote : Option Writer → Option (Bool × Writer)
rewrote none = none
rewrote (some w) = some (true, w)

-- hoox_arm64_relocator_rewrite_ldr
unfoldable pub rewrite_ldr : Insn → Writer → Option (Bool × Writer)
rewrite_ldr i w =
    let dst = reg_at i.operands 0 in
    let is_fp_or_simd = between Reg.s0 97 dst || between Reg.d0 129 dst || between Reg.q0 161 dst in
    let tmp =
      if between Reg.w0 62 dst
      then Reg.x0 + (dst - Reg.w0)
      else if between 63 64 dst
      then 30 + (dst - 63)
      else dst in
    let load : ℕ → Writer → Option Writer = λ reg v. elim i.id [
      | ldr ↦ after (put_ldr_reg_reg_offset v dst reg 0)
      | _ ↦ after (put_ldrsw_reg_reg_offset v dst reg 0)
    ] in
    let load_vector : Writer → Option Writer =
      λ v. elim i.id [ ldr ↦ after (put_ldr_reg_reg_offset v dst Reg.x0 0) | _ ↦ none ] in
    elim (imm_at i.operands 1) [
      | none ↦ some (false, w)
      | some address ↦
          if is_fp_or_simd
          then rewrote (
              after (put_push_reg_reg w Reg.x0 (Reg.x 1)) >>= λ w₁.
              after (put_ldr_reg_address w₁ Reg.x0 address) >>= load_vector >>= λ w₃.
              after (put_pop_reg_reg w₃ Reg.x0 (Reg.x 1)))
          else rewrote (after (put_ldr_reg_address w tmp address) >>= load tmp)
    ]

-- hoox_arm64_relocator_rewrite_adr
unfoldable pub rewrite_adr : Insn → Writer → Option (Bool × Writer)
rewrite_adr i w = elim (imm_at i.operands 1) [
  | none ↦ none
  | some label ↦ rewrote (after (put_ldr_reg_address w (reg_at i.operands 0) label))
]

-- The end that the branches share: load the signed target into a register and go there.
unfoldable pub put_jump : ℕ → Writer → Option Writer
put_jump target w = after (put_ldr_reg_address w (Reg.x 16) (sign w target)) >>= λ w₁.
    after (put_br_reg w₁ (Reg.x 16))

-- hoox_arm64_relocator_rewrite_b
unfoldable pub rewrite_b : Insn → Writer → Option (Bool × Writer)
rewrite_b i w = rewrote (put_jump (target_at i 0) w)

-- `is_true` and `is_false`: two labels for the place where the code is written.
abbrev pub unique_id : Writer → ℕ
unique_id w = u64 (w.code << 1)

abbrev pub is_true : Writer → ℕ
is_true w = unique_id w or 1

abbrev pub is_false : Writer → ℕ
is_false w = unique_id w or 0

-- What follows the conditional branch to `taken`, in the three functions that make one.
unfoldable pub put_two_ways : ℕ → ℕ → ℕ → Writer → Option Writer
put_two_ways taken fallen target w =
    put_jump target (put_label (put_b_label w fallen) taken).1 >>= λ w'.
    some (put_label w' fallen).1

-- hoox_arm64_relocator_rewrite_b_cond
unfoldable pub rewrite_b_cond : Insn → Writer → Option (Bool × Writer)
rewrite_b_cond i w =
    rewrote
      (put_two_ways (is_true w) (is_false w) (target_at i 0) (put_b_cond_label w i.cc (is_true w)))

-- hoox_arm64_relocator_rewrite_bl
unfoldable pub rewrite_bl : Insn → Writer → Option (Bool × Writer)
rewrite_bl i w = rewrote (
    after (put_ldr_reg_address w Reg.lr (sign w (target_at i 0))) >>= λ w₁.
    after (put_blr_reg w₁ Reg.lr))

-- hoox_arm64_relocator_rewrite_cbz
unfoldable pub rewrite_cbz : Insn → Writer → Option (Bool × Writer)
rewrite_cbz i w =
    let reg = reg_at i.operands 0 in
    let branch : Option (Bool × Writer) = elim i.id [
      | cbz ↦ put_cbz_reg_label w reg (is_true w)
      | _ ↦ put_cbnz_reg_label w reg (is_true w)
    ] in
    rewrote (after branch >>= put_two_ways (is_true w) (is_false w) (target_at i 1))

-- hoox_arm64_relocator_rewrite_tbz
unfoldable pub rewrite_tbz : Insn → Writer → Option (Bool × Writer)
rewrite_tbz i w =
    let reg = reg_at i.operands 0 in
    let bit = u32 (target_at i 1) in
    let branch : Option (Bool × Writer) = elim i.id [
      | tbz ↦ put_tbz_reg_imm_label w reg bit (is_true w)
      | _ ↦ put_tbnz_reg_imm_label w reg bit (is_true w)
    ] in
    rewrote (after branch >>= put_two_ways (is_true w) (is_false w) (target_at i 2))

-- The switch of hoox_arm64_relocator_write_one.
unfoldable pub rewrite : Insn → Writer → Option (Bool × Writer)
rewrite i w = elim i.id [
  | ldr ↦ rewrite_ldr i w
  | ldrsw ↦ rewrite_ldr i w
  | adr ↦ rewrite_adr i w
  | adrp ↦ rewrite_adr i w
  | b ↦ if is_unconditional i then rewrite_b i w else rewrite_b_cond i w
  | bl ↦ rewrite_bl i w
  | cbz ↦ rewrite_cbz i w
  | cbnz ↦ rewrite_cbz i w
  | tbz ↦ rewrite_tbz i w
  | tbnz ↦ rewrite_tbz i w
  | _ ↦ some (false, w)
]
