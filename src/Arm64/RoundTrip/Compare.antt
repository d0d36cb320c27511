-- ===== src/Arm64/RoundTrip/Compare.antt =====
-- CBZ and CBNZ to an address.
use hoox.Prelude.{
  ℕ, ◌+◌, ◌*◌, ◌/◌, ◌%◌, ◌^◌, ◌<◌, ◌≡◌, refl, ◌∙◌, ap, ◌≢◌, true, [], ◌∷◌, some, arith, bit_and,
  ◌==◌, if◌then◌else◌,
}
use hoox.Prelude.Bits.{or_fields, or_fields_swap, or_split, or_zero, zero_or}
use hoox.Prelude.Words.{◌<<◌, ◌or◌, u32, u64, sub64, sdiv, srem, is_within_int, sign_extend}
use hoox.Arm64.Reg.{RegInfo, describe_reg}
use hoox.Arm64.Reg.Laws.{IsGeneral, IsGeneral-described, meta-lt, gp_reg-meta, sf-width}
use hoox.Arm64.Decoder.{insn, Op, decode, decode_compare_branch, gp_reg, cbz, cbnz}
use hoox.Arm64.Decoder.Classes.{decode_of_compare}
use hoox.Arm64.Decoder.Masks.{mask_31, mask_24, low_5, low_19}
use hoox.Arm64.Writer.{Writer}
use hoox.Arm64.Writer.Emit.{put_instruction}
use hoox.Arm64.Writer.Branches.{put_cbx_op_reg_imm, word_offset}
use hoox.Arm64.Writer.Flow.{IsQuiet}
use hoox.Arm64.RoundTrip.Reach.{reach_19}
use hoox.Arm64.RoundTrip.{written, written-put}

-- The word of a compare and branch, by its fields.
abbrev compare_word : ℕ → ℕ → ℕ → ℕ → ℕ
compare_word wide op field index = ((wide * 64 + 0x1a) * 2 + op) * 2 ^ 24 + field * 2 ^ 5 + index

decode-compare_word :
    (wide op field index pc target : ℕ)
    → wide < 2
    → op < 2
    → field < 2 ^ 19
    → index < 32
    → u64 (pc + sign_extend (field << 2) 21) ≡ target
    → let word = compare_word wide op field index in
      decode word pc
      ≡ insn
          (if op == 1 then cbnz else cbz)
          pc
          word
          (Op.reg (gp_reg (wide == 1) index) ∷ Op.imm target ∷ [])
unfolding decode_compare_branch
decode-compare_word wide op field index pc target hw ho hf hi reach =
    let word = compare_word wide op field index in
    decode_of_compare word pc (omega arith)
    ∙ ground (arith, mask_31 word, mask_24 word, low_5 word, low_19 (word / 2 ^ 5))

-- The joining of the fields in put_cbx_op_reg_imm.
join-compare_word :
    (wide op imm index : ℕ)
    → wide < 2
    → op < 2
    → index < 32
    → u32 (wide * 2 ^ 31 or 0x34000000 or op << 24 or bit_and imm 0x7ffff << 5 or index)
      ≡ compare_word wide op (imm % 2 ^ 19) index
join-compare_word wide op imm index hw ho hi =
    let field = imm % 2 ^ 19 in
    ground (
      arith,
      low_19 imm,
      or_split 26 (wide * 32) 0 13 0,
      or_fields 5 wide 13,
      or_zero 0,
      or_fields_swap 24 op ((wide * 32 + 13) * 2 ^ 26),
      or_split 25 (wide * 64 + 26) 0 0 (op * 2 ^ 24),
      or_zero (wide * 64 + 26),
      zero_or (op * 2 ^ 24),
      or_fields 24 ((wide * 64 + 26) * 2 + op) (field * 2 ^ 5),
      or_fields 5 (((wide * 64 + 26) * 2 + op) * 2 ^ 19 + field) index,
    )

-- `word_offset` where it is not the label's 0.
pub word_offset-some :
    (bits : ℕ) (w : Writer) (target v : ℕ)
    → target ≢ 0
    → word_offset bits w target ≡ some v
    → (v ≡ sdiv (sub64 target w.pc) 4)
      × (srem (sub64 target w.pc) 4 ≡ 0)
      × (is_within_int bits v ≡ true)
unfolding word_offset
word_offset-some bits w target v h e = ground arith

-- Bit 31 of the instruction: the operation is one of 64 bits.
abbrev pub wide_bit : RegInfo → ℕ
wide_bit ri = if ri.width == 64 then 1 else 0

module _ (w : Writer) (reg target : ℕ) (quiet : IsQuiet w) (pc_fits : w.pc < 2 ^ 64)
    (fits : target < 2 ^ 64) (set : target ≢ 0) (general : IsGeneral reg) where
  -- What CBZ, CBNZ, TBZ and TBNZ write, for a word offset that was found.
  put_cbx-wrote :
      (op : ℕ) {ri : RegInfo} {w' : Writer}
      → describe_reg reg ≡ some ri
      → put_cbx_op_reg_imm w op reg target ≡ some (true, w')
      → (imm : ℕ) × ((word_offset 19 w target ≡ some imm)
          × (w'
              ≡ put_instruction w
                  (u32 (ri.sf or 0x34000000 or op << 24 or bit_and imm 0x7ffff << 5 or ri.meta))))
  unfolding put_cbx_op_reg_imm
  put_cbx-wrote op described e = ground arith

  put_cbx-decoded :
      (op imm : ℕ) (ri : RegInfo)
      → op < 2
      → describe_reg reg ≡ some ri
      → ri.is_integer ≡ true
      → word_offset 19 w target ≡ some imm
      → written w (
          put_instruction w
            (u32 (ri.sf or 0x34000000 or op << 24 or bit_and imm 0x7ffff << 5 or ri.meta)))
        ≡ insn
            (if op == 1 then cbnz else cbz)
            w.pc
            (compare_word (wide_bit ri) op (imm % 2 ^ 19) ri.meta)
            (Op.reg reg ∷ Op.imm target ∷ [])
  put_cbx-decoded op imm ri h described integer found =
      let (value, aligned, near) = word_offset-some 19 w target imm set found in
      let index = meta-lt reg described in
      let lands = reach_19 w.pc target pc_fits fits aligned in
      ap (λ (word : ℕ). written w (put_instruction w word))
        (ground (arith, sf-width reg described, join-compare_word (wide_bit ri) op imm ri.meta))
      ∙ written-put w _ quiet (ground arith)
      ∙ decode-compare_word (wide_bit ri) op (imm % 2 ^ 19) ri.meta w.pc target (ground arith) h
          (omega arith) index (ground (arith, lands))
      ∙ ground (arith, gp_reg-meta reg described integer)

  -- Where the literal pool stays closed and addresses are of 64 bits, a CBZ (`op` 0) or CBNZ (`op`
  -- 1) that the writer accepts, of a general register but SP and to a target other than 0, is
  -- decoded with the register and the target it was asked for.
  pub put_cbx-written :
      (op : ℕ) {w' : Writer}
      → op < 2
      → put_cbx_op_reg_imm w op reg target ≡ some (true, w')
      → ((written w w').id ≡ (if op == 1 then cbnz else cbz))
        × ((written w w').operands ≡ Op.reg reg ∷ Op.imm target ∷ [])
  put_cbx-written op {w'} h e =
      let (ri, (described, integer)) = IsGeneral-described reg general in
      let (imm, (found, wrote)) = put_cbx-wrote op described e in
      let decoded = put_cbx-decoded op imm ri h described integer found in
      rw (wrote, decoded) (refl, refl)
