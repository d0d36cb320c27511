-- ===== src/Arm64/RoundTrip/Move.antt =====
-- MOV between registers.
use hoox.Prelude.{
  ℕ, ◌+◌, ◌*◌, ◌/◌, ◌^◌, ◌<◌, ◌≡◌, refl, ◌∙◌, ap, ◌≢◌, ◌⊎◌, true, [], ◌∷◌, some, arith, ◌==◌,
  if◌then◌else◌,
}
use hoox.Prelude.Bits.{or_fields, or_split, or_zero}
use hoox.Prelude.Words.{◌<<◌, ◌or◌}
use hoox.Arm64.Reg
use hoox.Arm64.Reg.{RegInfo, describe_reg, x_reg, w_reg, mreg_31}
use hoox.Arm64.Reg.Laws.{
  IsGeneral, IsGeneral-zero, IsGeneral-described, meta-lt, gp_reg-meta, sf-width,
}
use hoox.Arm64.Decoder.{insn, Op, decode, decode_mov, gp_reg, mov}
use hoox.Arm64.Decoder.Classes.{decode_of_mov}
use hoox.Arm64.Decoder.Masks.{mask_31, low_5}
use hoox.Arm64.Writer.{Writer}
use hoox.Arm64.Writer.Emit.{put_instruction}
use hoox.Arm64.Writer.Moves.{put_mov_reg_reg}
use hoox.Arm64.Writer.Flow.{IsQuiet}
use hoox.Arm64.RoundTrip.{written, written-put}

-- The word of a MOV, by its fields.
abbrev mov_word : ℕ → ℕ → ℕ → ℕ
mov_word wide rd rs = (wide * 2 ^ 10 + 0x150) * 2 ^ 21 + rs * 2 ^ 16 + 31 * 2 ^ 5 + rd

decode-mov_word :
    (wide rd rs pc : ℕ)
    → wide < 2
    → rd < 32
    → rs < 32
    → let word = mov_word wide rd rs in
      decode word pc
      ≡ insn mov pc word (Op.reg (gp_reg (wide == 1) rd) ∷ Op.reg (gp_reg (wide == 1) rs) ∷ [])
unfolding decode_mov
decode-mov_word wide rd rs pc hw hd hs =
    let word = mov_word wide rd rs in
    decode_of_mov word pc (omega arith) (omega arith)
    ∙ ground (arith, mask_31 word, low_5 word, low_5 (word / 2 ^ 16))

-- The joining of the fields in put_mov_reg_reg.
join-mov_word :
    (wide rd rs : ℕ)
    → wide < 2
    → rd < 32
    → rs < 32
    → (wide * 2 ^ 31 or 0x2a000000 or rd or mreg_31 << 5 or rs << 16) ≡ mov_word wide rd rs
join-mov_word wide rd rs hw hd hs =
    let top = wide * 1024 + 0x150 in
    ground (
      arith,
      or_fields 31 wide 0x2a000000,
      or_fields 21 top rd,
      or_split 5 (top * 2 ^ 16) rd 31 0,
      or_zero rd,
      or_fields 16 top 31,
      or_split 16 (top * 2 ^ 5) (31 * 2 ^ 5 + rd) rs 0,
      or_fields 5 top rs,
      or_zero (31 * 2 ^ 5 + rd),
    )

module _ (w : Writer) (dst src : ℕ) (quiet : IsQuiet w) (dst_general : IsGeneral dst)
    (src_general : IsGeneral src) (no_zero : (dst ≢ Reg.xzr) × (dst ≢ Reg.wzr)) where
  put_mov-wrote :
      {rd rs : RegInfo} {w' : Writer}
      → describe_reg dst ≡ some rd
      → describe_reg src ≡ some rs
      → rd.meta ≢ 31
      → put_mov_reg_reg w dst src ≡ some (true, w')
      → (rd.width ≡ rs.width)
        × ((w'
              ≡ put_instruction w (rd.sf or 0x2a000000 or rd.meta or mreg_31 << 5 or rs.meta << 16))
            ⊎ ((src ≢ Reg.xzr) × ((src ≢ Reg.wzr) × (rs.meta ≡ 31))))
  unfolding put_mov_reg_reg
  put_mov-wrote dd ds h e = ground arith

  put_mov-word :
      (rd rs : RegInfo)
      → describe_reg dst ≡ some rd
      → rd.is_integer ≡ true
      → describe_reg src ≡ some rs
      → (rd.sf or 0x2a000000 or rd.meta or mreg_31 << 5 or rs.meta << 16)
        ≡ mov_word (if rd.width == 64 then 1 else 0) rd.meta rs.meta
  put_mov-word rd rs dd integer ds =
      let wide : ℕ = if rd.width == 64 then 1 else 0 in
      let top : rd.sf ≡ wide * 2 ^ 31 = ground (arith, sf-width dst dd integer) in
      rw top (join-mov_word wide rd.meta rs.meta (ground arith) (meta-lt dst dd) (meta-lt src ds))

  put_mov-decoded :
      (rd rs : RegInfo) {w' : Writer}
      → describe_reg dst ≡ some rd
      → rd.is_integer ≡ true
      → describe_reg src ≡ some rs
      → rs.is_integer ≡ true
      → put_mov_reg_reg w dst src ≡ some (true, w')
      → written w w'
        ≡ insn mov w.pc
            (mov_word (if rd.width == 64 then 1 else 0) rd.meta rs.meta)
            (Op.reg dst ∷ Op.reg src ∷ [])
  put_mov-decoded rd rs {w'} dd integer ds integer' e =
      let index = meta-lt dst dd in
      let index' = meta-lt src ds in
      let (same, wrote) =
        put_mov-wrote dd ds (ground (arith, IsGeneral-zero dst dst_general dd)) e in
      let was : w'
          ≡ put_instruction w (rd.sf or 0x2a000000 or rd.meta or mreg_31 << 5 or rs.meta << 16) =
        ground (arith, IsGeneral-zero src src_general ds) in
      ap (written w) (was ∙ ap (put_instruction w) (put_mov-word rd rs dd integer ds))
      ∙ written-put w _ quiet (ground arith)
      ∙ decode-mov_word (if rd.width == 64 then 1 else 0) rd.meta rs.meta w.pc (ground arith) index
          index'
      ∙ ground (arith, gp_reg-meta dst dd integer, gp_reg-meta src ds integer')

  -- Where the literal pool stays closed, a move between general registers but SP that
  -- put_mov_reg_reg accepts, with no zero register as the destination, is decoded as the MOV of
  -- these registers.
  pub put_mov_reg_reg-written :
      {w' : Writer}
      → put_mov_reg_reg w dst src ≡ some (true, w')
      → ((written w w').id ≡ mov) × ((written w w').operands ≡ Op.reg dst ∷ Op.reg src ∷ [])
  put_mov_reg_reg-written e =
      let (rd, (dd, integer)) = IsGeneral-described dst dst_general in
      let (rs, (ds, integer')) = IsGeneral-described src src_general in
      rw (put_mov-decoded rd rs dd integer ds integer' e) (refl, refl)
