-- ===== src/Arm64/RoundTrip/Test.antt =====
-- TBZ and TBNZ to an address.
use hoox.Prelude.{
  ℕ, ◌+◌, ◌*◌, ◌/◌, ◌%◌, ◌^◌, ◌<◌, ◌≡◌, refl, ◌∙◌, ap, ◌≢◌, ◌⊎◌, true, [], ◌∷◌, some, arith, leb,
  bit_and, ◌==◌, if◌then◌else◌,
}
use hoox.Prelude.Bits.{or_fields, or_fields_swap, or_split, or_zero, zero_or}
use hoox.Prelude.Words.{◌<<◌, ◌>>◌, ◌or◌, u32, u64, sign_extend}
use hoox.Arm64.Reg.{RegInfo, describe_reg, x_reg, w_reg}
use hoox.Arm64.Reg.Laws.{IsGeneral, IsGeneral-described, meta-lt, gp_reg-meta, width-integer}
use hoox.Arm64.Decoder.{insn, Op, decode, decode_test_branch, gp_reg, tbz, tbnz}
use hoox.Arm64.Decoder.Classes.{decode_of_test}
use hoox.Arm64.Decoder.Masks.{mask_31, mask_24, low_1, low_5, low_14}
use hoox.Arm64.Writer.{Writer}
use hoox.Arm64.Writer.Emit.{put_instruction}
use hoox.Arm64.Writer.Branches.{put_tbx_op_reg_imm_imm, word_offset}
use hoox.Arm64.Writer.Flow.{IsQuiet}
use hoox.Arm64.RoundTrip.Reach.{reach_14}
use hoox.Arm64.RoundTrip.{written, written-put}
use hoox.Arm64.RoundTrip.Compare.{word_offset-some}

-- The word of a test and branch, by its fields.
abbrev test_word : ℕ → ℕ → ℕ → ℕ → ℕ → ℕ
test_word high op low field index =
    (((high * 64 + 0x1b) * 2 + op) * 2 ^ 5 + low) * 2 ^ 19 + field * 2 ^ 5 + index

decode-test_word :
    (high op low field index pc target : ℕ)
    → high < 2
    → op < 2
    → low < 32
    → field < 2 ^ 14
    → index < 32
    → u64 (pc + sign_extend (field << 2) 16) ≡ target
    → let word = test_word high op low field index in
      decode word pc
      ≡ insn
          (if op == 1 then tbnz else tbz)
          pc
          word
          (Op.reg (gp_reg (high == 1) index) ∷ Op.imm (high * 32 + low) ∷ Op.imm target ∷ [])
unfolding decode_test_branch
decode-test_word high op low field index pc target hw ho hl hf hi reach =
    let word = test_word high op low field index in
    decode_of_test word pc (omega arith)
    ∙ ground (
      arith,
      mask_31 word,
      mask_24 word,
      low_5 word,
      low_5 (word / 2 ^ 19),
      low_1 (word / 2 ^ 31),
      low_14 (word / 2 ^ 5),
      or_fields 5 high low,
    )

-- The joining of the fields in put_tbx_op_reg_imm_imm.
join-test_word :
    (bit op imm index : ℕ)
    → bit < 64
    → op < 2
    → index < 32
    → u32 (
        u32 ((bit >> 5) << 31)
        or 0x36000000
        or op << 24
        or bit_and bit 0x1f << 19
        or bit_and imm 0x3fff << 5
        or index)
      ≡ test_word (bit / 32) op (bit % 32) (imm % 2 ^ 14) index
join-test_word bit op imm index hw ho hi =
    let field = imm % 2 ^ 14 in
    let wide = bit / 32 in
    let top = (wide * 64 + 27) * 2 + op in
    ground (
      arith,
      low_14 imm,
      low_5 bit,
      or_fields 31 wide 0x36000000,
      or_fields_swap 24 op ((wide * 64 + 27) * 2 ^ 25),
      or_split 25 (wide * 64 + 27) 0 0 (op * 2 ^ 24),
      or_zero (wide * 64 + 27),
      zero_or (op * 2 ^ 24),
      or_fields 24 top (bit % 32 * 2 ^ 19),
      or_fields 19 (top * 2 ^ 5 + bit % 32) (field * 2 ^ 5),
      or_fields 5 ((top * 2 ^ 5 + bit % 32) * 2 ^ 14 + field) index,
    )

module _ (w : Writer) (reg bit target : ℕ) (quiet : IsQuiet w) (pc_fits : w.pc < 2 ^ 64)
    (fits : target < 2 ^ 64) (set : target ≢ 0) (general : IsGeneral reg) where
  put_tbx-wrote :
      (op : ℕ) {ri : RegInfo} {w' : Writer}
      → describe_reg reg ≡ some ri
      → put_tbx_op_reg_imm_imm w op reg bit target ≡ some (true, w')
      → (imm : ℕ) × ((bit < ri.width)
          × ((word_offset 14 w target ≡ some imm)
              × (w'
                  ≡ put_instruction w (
                      u32 (
                        u32 ((bit >> 5) << 31)
                        or 0x36000000
                        or op << 24
                        or bit_and bit 0x1f << 19
                        or bit_and imm 0x3fff << 5
                        or ri.meta)))))
  unfolding put_tbx_op_reg_imm_imm
  put_tbx-wrote op described e = ground arith

  put_tbx-decoded :
      (op imm : ℕ) (ri : RegInfo)
      → op < 2
      → bit < 64
      → describe_reg reg ≡ some ri
      → word_offset 14 w target ≡ some imm
      → written w (
          put_instruction w (
            u32 (
              u32 ((bit >> 5) << 31)
              or 0x36000000
              or op << 24
              or bit_and bit 0x1f << 19
              or bit_and imm 0x3fff << 5
              or ri.meta)))
        ≡ insn
            (if op == 1 then tbnz else tbz)
            w.pc
            (test_word (bit / 32) op (bit % 32) (imm % 2 ^ 14) ri.meta)
            (Op.reg (gp_reg (leb 32 bit) ri.meta) ∷ Op.imm bit ∷ Op.imm target ∷ [])
  put_tbx-decoded op imm ri h small described found =
      let (value, aligned, near) = word_offset-some 14 w target imm set found in
      let index = meta-lt reg described in
      let lands = reach_14 w.pc target pc_fits fits aligned in
      ap (λ (word : ℕ). written w (put_instruction w word))
        (join-test_word bit op imm ri.meta small h index)
      ∙ written-put w _ quiet (omega arith)
      ∙ decode-test_word (bit / 32) op (bit % 32) (imm % 2 ^ 14) ri.meta w.pc target (omega arith) h
          (omega arith) (omega arith) index (ground (arith, lands))
      ∙ ground arith

  -- Where the literal pool stays closed and addresses are of 64 bits, a TBZ (`op` 0) or TBNZ (`op`
  -- 1) that the writer accepts, of a general register but SP and to a target other than 0, is
  -- decoded with the bit and the target it was asked for; the register is read as its X form for a
  -- bit from 32 on and as its W form below, and the register asked for is the X form, or the W form
  -- with a bit below 32.
  pub put_tbx-written :
      (op : ℕ) {w' : Writer}
      → op < 2
      → put_tbx_op_reg_imm_imm w op reg bit target ≡ some (true, w')
      → (index : ℕ) × (((written w w').id ≡ (if op == 1 then tbnz else tbz))
          × (((written w w').operands
                ≡ Op.reg (gp_reg (leb 32 bit) index) ∷ Op.imm bit ∷ Op.imm target ∷ [])
              × ((reg ≡ x_reg index) ⊎ ((reg ≡ w_reg index) × (bit < 32)))))
  put_tbx-written op {w'} h e =
      let (ri, (described, integer)) = IsGeneral-described reg general in
      let (imm, (small, (found, wrote))) = put_tbx-wrote op described e in
      let width = width-integer reg described integer in
      let decoded = put_tbx-decoded op imm ri h (ground arith) described found in
      (
        ri.meta,
        rw (wrote, decoded) (refl, (refl, ground (arith, gp_reg-meta reg described integer))),
      )
