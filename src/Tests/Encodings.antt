-- ===== src/Tests/Encodings.antt =====
-- Single instructions, written and decoded.
use hoox.Prelude.{ℕ, ◌+◌, ◌^◌, ◌-◌, ◌*◌, ◌<◌, ◌≡◌, refl, ◌⊎◌, ◌↔◌, inl, true, [], ◌∷◌, arith, leb}
use hoox.Prelude.Words.{u64}
use hoox.Arm64.Reg
use hoox.Arm64.Reg.{describe_reg, x_reg, w_reg}
use hoox.Arm64.Decoder.{Op, gp_reg, b, bl, braaz, cbnz, tbnz, ldr, mov}
use hoox.Arm64.Writer.{Writer, strip}
use hoox.Arm64.Writer.Emit.{put_instruction}
use hoox.Arm64.Writer.Branches.{
  put_branch_imm, put_b_imm, put_bl_imm, word_offset, put_cbx_op_reg_imm, put_tbx_op_reg_imm_imm,
  put_reg_branch, put_br_reg, put_br_reg_with_extra,
}
use hoox.Arm64.Writer.Loads.{put_ldr_reg_ptr, put_ldr_reg_pcrel}
use hoox.Arm64.Writer.Moves.{put_mov_reg_reg}
use hoox.Arm64.RoundTrip.{written}
use hoox.Arm64.RoundTrip.Branch.{
  Lands, put_b_imm-written, put_bl_imm-written, put_b_imm-accepts_iff,
}
use hoox.Arm64.RoundTrip.Compare.{put_cbx-written}
use hoox.Arm64.RoundTrip.Test.{put_tbx-written}
use hoox.Arm64.RoundTrip.Registers.{put_br_reg-written}
use hoox.Arm64.RoundTrip.Move.{put_mov_reg_reg-written}
use hoox.Arm64.RoundTrip.Literal.{put_ldr_reg_ptr-written}
use hoox.Tests.{start, writer, phone, blank}

-- A branch back by 16 bytes.
put_b_imm-written_example :
    ((written start (put_instruction start 0x17fffffc)).id ≡ b)
    × Lands start 0xff0 (written start (put_instruction start 0x17fffffc))
unfolding put_b_imm put_branch_imm strip
put_b_imm-written_example =
    put_b_imm-written start 0xff0 (inl refl) (omega arith) (omega arith)
      {w' = put_instruction start 0x17fffffc} refl

put_bl_imm-written_example :
    ((written start (put_instruction start 0x94000400)).id ≡ bl)
    × Lands start 0x2000 (written start (put_instruction start 0x94000400))
unfolding put_bl_imm put_branch_imm strip
put_bl_imm-written_example =
    put_bl_imm-written start 0x2000 (inl refl) (omega arith) (omega arith)
      {w' = put_instruction start 0x94000400} refl

-- Almost 128 MiB away.
put_b_imm-accepts_iff_example : ((put_b_imm start 0x8000ffc).0 ≡ true) ↔ (
    (n : ℕ) × (n < 2 ^ 25)
    × ((strip start 0x8000ffc ≡ u64 (0x1000 + 4 * n))
        ⊎ (strip start 0x8000ffc ≡ u64 (0x1000 + 2 ^ 64 - 4 * (n + 1)))))
unfolding strip
put_b_imm-accepts_iff_example =
    put_b_imm-accepts_iff start 0x8000ffc (inl refl) (omega arith) (omega arith)

put_cbx-written_example :
    ((written start (put_instruction start 0xb5ffffc3)).id ≡ cbnz)
    × ((written start (put_instruction start 0xb5ffffc3)).operands
        ≡ Op.reg (Reg.x 3) ∷ Op.imm 0xff8 ∷ [])
unfolding put_cbx_op_reg_imm describe_reg word_offset
put_cbx-written_example =
    put_cbx-written start (Reg.x 3) 0xff8 (inl refl) (omega arith) (omega arith) (ground arith)
      (ground arith) 1 {w' = put_instruction start 0xb5ffffc3} (omega arith) refl

put_tbx-written_example :
    (index : ℕ) × (((written start (put_instruction start 0xb7080083)).id ≡ tbnz)
      × (((written start (put_instruction start 0xb7080083)).operands
            ≡ Op.reg (gp_reg (leb 32 33) index) ∷ Op.imm 33 ∷ Op.imm 0x1010 ∷ [])
          × ((Reg.x 3 ≡ x_reg index) ⊎ ((Reg.x 3 ≡ w_reg index) × (33 < 32)))))
unfolding put_tbx_op_reg_imm_imm describe_reg word_offset
put_tbx-written_example =
    put_tbx-written start (Reg.x 3) 33 0x1010 (inl refl) (omega arith) (omega arith) (ground arith)
      (ground arith) 1 {w' = put_instruction start 0xb7080083} (omega arith) refl

put_ldr_reg_ptr-written_example :
    ((written start (put_instruction start 0x5c000081)).id ≡ ldr)
    × ((written start (put_instruction start 0x5c000081)).operands
        ≡ Op.reg (Reg.d0 + 1) ∷ Op.imm 0x1010 ∷ [])
unfolding put_ldr_reg_ptr put_ldr_reg_pcrel describe_reg word_offset
put_ldr_reg_ptr-written_example =
    put_ldr_reg_ptr-written start (Reg.d0 + 1) 0x1010 (inl refl) (omega arith) (omega arith)
      (ground arith) 64 {w' = put_instruction start 0x5c000081} (omega arith) (ground arith) refl

-- With pointer authentication.
abbrev signed : Writer
signed = writer phone blank 0x1000

put_br_reg-written_example :
    ((written signed (put_instruction signed 0xd61f0a1f)).id ≡ braaz)
    × ((written signed (put_instruction signed 0xd61f0a1f)).operands ≡ Op.reg (Reg.x 16) ∷ [])
unfolding put_br_reg put_br_reg_with_extra put_reg_branch describe_reg
put_br_reg-written_example =
    put_br_reg-written signed (Reg.x 16) (inl refl) {w' = put_instruction signed 0xd61f0a1f}
      (ground arith) refl

put_mov_reg_reg-written_example :
    ((written start (put_instruction start 0x2a1f03e5)).id ≡ mov)
    × ((written start (put_instruction start 0x2a1f03e5)).operands
        ≡ Op.reg (Reg.w0 + 5) ∷ Op.reg Reg.wzr ∷ [])
unfolding put_mov_reg_reg describe_reg
put_mov_reg_reg-written_example =
    put_mov_reg_reg-written start (Reg.w0 + 5) Reg.wzr (inl refl) (ground arith) (ground arith)
      (ground arith) {w' = put_instruction start 0x2a1f03e5} refl
