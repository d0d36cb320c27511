-- ===== src/Arm64/RoundTrip/Branch.antt =====
-- B and BL to an address.
use hoox.Prelude.{
  ◌⊎◌, inl, inr, ◌/◌, ◌-◌, ltb, Bool-cases, ℕ, ◌+◌, ◌*◌, ◌%◌, ◌^◌, ◌<◌, ◌≡◌, ◌∙◌, ap, ◌↔◌, true, [],
  ◌∷◌, arith, bit_and, ◌==◌, if◌then◌else◌,
}
use hoox.Prelude.Bits.{or_fields}
use hoox.Prelude.Words.{◌<<◌, ◌or◌, u64, sub64, sdiv, srem, is_within_int, sign_extend}
use hoox.Arm64.Decoder.{Insn, insn, Op, decode, decode_branch, b, bl}
use hoox.Arm64.Decoder.Classes.{decode_of_branch}
use hoox.Arm64.Decoder.Masks.{mask_31, low_26}
use hoox.Arm64.Writer.{Writer, strip}
use hoox.Arm64.Writer.Emit.{put_instruction}
use hoox.Arm64.Writer.Branches.{put_branch_imm, put_b_imm, put_bl_imm}
use hoox.Arm64.Writer.Flow.{IsQuiet}
use hoox.Arm64.RoundTrip.Reach.{reach_26}
use hoox.Arm64.RoundTrip.{written, written-put}

-- A word with opcode 5 in bits 26 to 30 is a B, or a BL where bit 31 is set.
decode_word :
    (top field pc target : ℕ)
    → top < 2
    → field < 2 ^ 26
    → u64 (pc + sign_extend (field << 2) 28) ≡ target
    → let word = (top * 32 + 5) * 2 ^ 26 + field in
      decode word pc ≡ insn (if top == 1 then bl else b) pc word (Op.imm target ∷ [])
unfolding decode_branch
decode_word top field pc target t f reach =
    let word = (top * 32 + 5) * 2 ^ 26 + field in
    decode_of_branch word pc (omega arith) ∙ ground (arith, mask_31 word, low_26 word)

-- What put_b_imm and put_bl_imm promise of a branch to an address.
abbrev pub Lands : Writer → ℕ → Insn → Type 0
Lands w address i = (i.operands ≡ Op.imm (strip w address) ∷ []) × (i.cc ≡ 0)

module _ (w : Writer) (address : ℕ) (quiet : IsQuiet w) (pc_fits : w.pc < 2 ^ 64)
    (fits : strip w address < 2 ^ 64) where
  abbrev distance : ℕ
  distance = sub64 (strip w address) w.pc

  -- The word that put_branch_imm puts together.
  word-branch :
      (top : ℕ)
      → top < 2
      → ((top * 32 + 5) * 2 ^ 26) or bit_and (sdiv distance 4) 0x03ffffff
        ≡ (top * 32 + 5) * 2 ^ 26 + sdiv distance 4 % 2 ^ 26
  word-branch top h =
      ap (λ (f : ℕ). ((top * 32 + 5) * 2 ^ 26) or f) (low_26 (sdiv distance 4))
      ∙ or_fields 26 (top * 32 + 5) (sdiv distance 4 % 2 ^ 26) (omega arith)

  put_branch_imm-wrote :
      (opcode : ℕ) {w' : Writer}
      → put_branch_imm opcode w address ≡ (true, w')
      → (is_within_int 28 distance ≡ true)
        × (srem distance 4 ≡ 0)
        × (w' ≡ put_instruction w (opcode or bit_and (sdiv distance 4) 0x03ffffff))
  unfolding put_branch_imm
  put_branch_imm-wrote opcode e = ground arith

  put_branch_imm-written :
      (top : ℕ) {w' : Writer}
      → top < 2
      → put_branch_imm ((top * 32 + 5) * 2 ^ 26) w address ≡ (true, w')
      → written w w'
        ≡ insn
            (if top == 1 then bl else b)
            w.pc
            ((top * 32 + 5) * 2 ^ 26 + sdiv distance 4 % 2 ^ 26)
            (Op.imm (strip w address) ∷ [])
  put_branch_imm-written top {w'} h e =
      let (near, aligned, wrote) = put_branch_imm-wrote ((top * 32 + 5) * 2 ^ 26) e in
      ap (written w) (wrote ∙ ap (put_instruction w) (word-branch top h))
      ∙ written-put w _ quiet (omega arith)
      ∙ decode_word top (sdiv distance 4 % 2 ^ 26) w.pc (strip w address) h (omega arith)
          (reach_26 w.pc (strip w address) pc_fits fits aligned near)

  -- Where the literal pool stays closed and addresses are of 64 bits, a branch that put_b_imm
  -- accepts is decoded, where it was written, as an unconditional B to the stripped address.
  pub put_b_imm-written :
      {w' : Writer}
      → put_b_imm w address ≡ (true, w')
      → ((written w w').id ≡ b) × Lands w address (written w w')
  unfolding put_b_imm
  put_b_imm-written e = let i = put_branch_imm-written 0 (omega arith) e in ground (arith, i)

  -- Where the literal pool stays closed and addresses are of 64 bits, a call that put_bl_imm
  -- accepts is decoded, where it was written, as a BL to the stripped address.
  pub put_bl_imm-written :
      {w' : Writer}
      → put_bl_imm w address ≡ (true, w')
      → ((written w w').id ≡ bl) × Lands w address (written w w')
  unfolding put_bl_imm
  put_bl_imm-written e = let i = put_branch_imm-written 1 (omega arith) e in ground (arith, i)

  -- The instruction at the stripped address stands `n` behind the one that is put, or `n + 1` ahead
  -- of it.
  abbrev pub IsAway : ℕ → Type 0
  IsAway n =
      (strip w address ≡ u64 (w.pc + 4 * n)) ⊎ (strip w address ≡ u64 (w.pc + 2 ^ 64 - 4 * (n + 1)))

  put_branch_imm-near :
      (is_within_int 28 distance ≡ true) → (srem distance 4 ≡ 0) → (n : ℕ) × (n < 2 ^ 25) × IsAway n
  put_branch_imm-near near aligned = elim (Bool-cases (ltb distance (2 ^ 63))) [
    | inl forward ↦ (distance / 4, ground arith, inl (ground arith))
    | inr back ↦ ((2 ^ 64 - distance) / 4 - 1, ground arith, inr (ground arith))
  ]

  near-accepted :
      (n : ℕ) → n < 2 ^ 25 → IsAway n → (is_within_int 28 distance ≡ true) × (srem distance 4 ≡ 0)
  near-accepted n small (inl forward) = (ground arith, ground arith)
  near-accepted n small (inr back) = (ground arith, ground arith)

  -- Where the literal pool stays closed and addresses are of 64 bits, put_b_imm accepts exactly the
  -- addresses that stand, once stripped, a number of whole instructions from the program counter:
  -- at most 2 ^ 25 - 1 of them behind it or 2 ^ 25 ahead of it, modulo 2 ^ 64.
  pub put_b_imm-accepts_iff : ((put_b_imm w address).0 ≡ true) ↔ ((n : ℕ) × (n < 2 ^ 25) × IsAway n)
  unfolding put_b_imm put_branch_imm
  put_b_imm-accepts_iff = (
    λ accepted. put_branch_imm-near (ground arith) (ground arith),
    λ (n, small, away). let (near, aligned) = near-accepted n small away in ground arith,
  )
