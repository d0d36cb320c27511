-- ===== src/Arm64/RoundTrip/Literal.antt =====
-- LDR of a register from an address.
use hoox.Prelude.{
  ℕ, ◌+◌, ◌*◌, ◌/◌, ◌%◌, ◌^◌, ◌≤◌, ◌<◌, ◌≡◌, refl, ◌∙◌, ap, ◌≢◌, true, [], ◌∷◌, some, arith,
  bit_and, ◌==◌, if◌then◌else◌,
}
use hoox.Prelude.Bits.{or_fields}
use hoox.Prelude.Words.{◌<<◌, ◌or◌, u32, u64, sign_extend}
use hoox.Arm64.Reg
use hoox.Arm64.Reg.{RegInfo, describe_reg, x_reg, w_reg}
use hoox.Arm64.Reg.Laws.{meta-lt, loaded_reg-meta}
use hoox.Arm64.Decoder.{insn, Op, decode, decode_load_literal, ldr}
use hoox.Arm64.Decoder.Classes.{decode_of_literal}
use hoox.Arm64.Decoder.Masks.{mask_26, low_2, low_5, low_19}
use hoox.Arm64.Writer.{Writer}
use hoox.Arm64.Writer.Emit.{put_instruction}
use hoox.Arm64.Writer.Branches.{word_offset}
use hoox.Arm64.Writer.Loads.{put_ldr_reg_pcrel, put_ldr_reg_ptr}
use hoox.Arm64.Writer.Flow.{IsQuiet}
use hoox.Arm64.RoundTrip.Reach.{reach_19}
use hoox.Arm64.RoundTrip.Compare.{word_offset-some}
use hoox.Arm64.RoundTrip.{written, written-put}

-- The word of a literal load, by its fields.
abbrev pub literal_word : ℕ → ℕ → ℕ → ℕ → ℕ
literal_word wide vector field index =
    ((wide * 8 + 3) * 2 + vector) * 2 ^ 26 + field * 2 ^ 5 + index

-- The register that the field stands for.
abbrev pub loaded_reg : ℕ → ℕ → ℕ → ℕ
loaded_reg wide vector index =
    if vector == 1
    then if wide == 1 then Reg.d0 + index else Reg.s0 + index
    else if wide == 1
    then x_reg index
    else w_reg index

pub decode-literal_word :
    (wide vector field index pc target : ℕ)
    → wide < 2
    → vector < 2
    → field < 2 ^ 19
    → index < 32
    → u64 (pc + sign_extend (field << 2) 21) ≡ target
    → let word = literal_word wide vector field index in
      decode word pc ≡ insn ldr pc word (Op.reg (loaded_reg wide vector index) ∷ Op.imm target ∷ [])
unfolding decode_load_literal
decode-literal_word wide vector field index pc target hw hv hf hi reach =
    let word = literal_word wide vector field index in
    decode_of_literal word pc (omega arith) (omega arith)
      (ground (arith, mask_26 word, low_2 (word / 2 ^ 30), low_5 word, low_19 (word / 2 ^ 5)))

-- The joining of the fields in put_ldr_reg_pcrel.
pub join-literal_word :
    (wide vector imm index : ℕ)
    → wide < 2
    → vector < 2
    → index < 32
    → u32 (
        (if wide == 1 then 0x50000000 else 0x10000000)
        or (if vector == 1 then 0x0c000000 else 0x08000000)
        or bit_and imm 0x7ffff << 5
        or index)
      ≡ literal_word wide vector (imm % 2 ^ 19) index
join-literal_word wide vector imm index hw hv hi =
    let field = imm % 2 ^ 19 in
    let top = (wide * 8 + 3) * 2 + vector in
    ground (
      arith,
      low_19 imm,
      or_fields 28 (wide * 4 + 1) 0x0c000000,
      or_fields 28 (wide * 4 + 1) 0x08000000,
      or_fields 26 top (field * 2 ^ 5),
      or_fields 5 (top * 2 ^ 21 + field) index,
    )

-- The fields of a register that can be loaded.
abbrev wide_bit : RegInfo → ℕ
wide_bit ri = if ri.width == 64 then 1 else 0

abbrev vector_bit : RegInfo → ℕ
vector_bit ri = if ri.is_integer then 0 else 1

module _ (w : Writer) (reg target : ℕ) (quiet : IsQuiet w) (pc_fits : w.pc < 2 ^ 64)
    (fits : target < 2 ^ 64) (set : target ≢ 0) where
  put_ldr_reg_ptr-wrote :
      (bits : ℕ) {w' : Writer}
      → put_ldr_reg_ptr bits w reg target ≡ some (true, w')
      → (ri : RegInfo) × ((describe_reg reg ≡ some ri)
          × ((ri.width ≡ bits)
              × ((imm : ℕ) × ((word_offset 19 w target ≡ some imm)
                    × (w'
                        ≡ put_instruction w (
                            u32 (
                              (if wide_bit ri == 1 then 0x50000000 else 0x10000000)
                              or (if vector_bit ri == 1 then 0x0c000000 else 0x08000000)
                              or bit_and imm 0x7ffff << 5
                              or ri.meta)))))))
  unfolding put_ldr_reg_ptr put_ldr_reg_pcrel
  put_ldr_reg_ptr-wrote bits e = ground arith

  put_ldr_reg_ptr-decoded :
      (imm : ℕ) (ri : RegInfo)
      → describe_reg reg ≡ some ri
      → reg ≢ Reg.sp
      → ri.width ≤ 64
      → word_offset 19 w target ≡ some imm
      → written w (
          put_instruction w (
            u32 (
              (if wide_bit ri == 1 then 0x50000000 else 0x10000000)
              or (if vector_bit ri == 1 then 0x0c000000 else 0x08000000)
              or bit_and imm 0x7ffff << 5
              or ri.meta)))
        ≡ insn ldr w.pc
            (literal_word (wide_bit ri) (vector_bit ri) (imm % 2 ^ 19) ri.meta)
            (Op.reg reg ∷ Op.imm target ∷ [])
  put_ldr_reg_ptr-decoded imm ri described n width found =
      let (value, aligned, near) = word_offset-some 19 w target imm set found in
      let index = meta-lt reg described in
      let lands = reach_19 w.pc target pc_fits fits aligned in
      let wide : wide_bit ri < 2 = ground arith in
      let vector : vector_bit ri < 2 = ground arith in
      ap (λ (word : ℕ). written w (put_instruction w word))
        (join-literal_word (wide_bit ri) (vector_bit ri) imm ri.meta wide vector index)
      ∙ written-put w _ quiet (omega arith)
      ∙ decode-literal_word (wide_bit ri) (vector_bit ri) (imm % 2 ^ 19) ri.meta w.pc target wide
          vector (omega arith) index (ground (arith, lands))
      ∙ ground (arith, loaded_reg-meta reg described n width)

  -- Where the literal pool stays closed and addresses are of 64 bits, a load from an address other
  -- than 0 that the writer accepts, of a register of at most 64 bits, general or vector, but SP, is
  -- decoded as an LDR of this register from this address.
  pub put_ldr_reg_ptr-written :
      (bits : ℕ) {w' : Writer}
      → bits ≤ 64
      → reg ≢ Reg.sp
      → put_ldr_reg_ptr bits w reg target ≡ some (true, w')
      → ((written w w').id ≡ ldr) × ((written w w').operands ≡ Op.reg reg ∷ Op.imm target ∷ [])
  put_ldr_reg_ptr-written bits {w'} h n e =
      let (ri, (described, (width, (imm, (found, wrote))))) = put_ldr_reg_ptr-wrote bits e in
      rw (wrote, put_ldr_reg_ptr-decoded imm ri described n (omega arith) found) (refl, refl)
