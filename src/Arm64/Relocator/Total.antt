-- ===== src/Arm64/Relocator/Total.antt =====
-- The rewrite functions end the process on no instruction that the decoder makes.
use hoox.Prelude.{
  ℕ, ◌+◌, ◌-◌, ◌≤◌, ◌≡◌, refl, ◌≢◌, ◌⊎◌, inl, inr, Bool, true, false, Option, none, some, arith,
  if◌then◌else◌, Option-cases, Bool-cases, ◌||◌,
}
use hoox.Arm64.Reg
use hoox.Arm64.Reg.{RegInfo, describe_reg, between}
use hoox.Arm64.Decoder.{Insn, InsnId, decode, ldr, ldrsw, adr, adrp, b, bl, cbz, cbnz, tbz, tbnz}
use hoox.Arm64.Writer.{Writer}
use hoox.Arm64.Writer.Branches.{
  put_br_reg, put_blr_reg, put_br_reg_with_extra, put_blr_reg_with_extra, put_cbz_reg_label,
  put_cbnz_reg_label, put_tbz_reg_imm_label, put_tbnz_reg_imm_label,
}
use hoox.Arm64.Relocator.Decoded.{IsReg, Wants, Suits, decode-Suits}
use hoox.Arm64.Relocator.Rewrite.{
  rewrite, rewrote, rewrite_ldr, rewrite_adr, rewrite_b, rewrite_b_cond, rewrite_bl, rewrite_cbz,
  rewrite_tbz, put_jump, put_two_ways, reg_at, imm_at,
}
use hoox.Arm64.Relocator.Answers.{
  bind-answers, put_reg_branch-answers, put_cbx-answers, put_tbx-answers,
  put_ldr_reg_address-answers, put_ldr_reg_reg_offset-answers, put_ldrsw_reg_reg_offset-answers,
  put_push-answers, put_pop-answers, after-answers,
}

rewrote-answers : (o : Option Writer) → o ≢ none → rewrote o ≢ none
rewrote-answers none h = λ e. h refl
rewrote-answers (some w) h = ground arith

put_jump-answers : (target : ℕ) (w : Writer) → put_jump target w ≢ none
unfolding put_jump put_br_reg put_br_reg_with_extra
put_jump-answers target w =
    bind-answers _ _ (after-answers _ (put_ldr_reg_address-answers w (Reg.x 16) _ (omega arith)))
      (λ v. after-answers _ (put_reg_branch-answers v _ (Reg.x 16) _ (omega arith)))

put_two_ways-answers :
    (taken fallen target : ℕ) (w : Writer) → put_two_ways taken fallen target w ≢ none
unfolding put_two_ways
put_two_ways-answers taken fallen target w =
    bind-answers _ _ (put_jump-answers target _) (λ v. ground arith)

module _ {A : Type 0} where
  cbz_or-answers :
      (id : InsnId) (x y : Option A) → x ≢ none → y ≢ none → (elim id [ cbz ↦ x | _ ↦ y ]) ≢ none
  cbz_or-answers cbz x y h g = h
  cbz_or-answers _ x y h g = g

  tbz_or-answers :
      (id : InsnId) (x y : Option A) → x ≢ none → y ≢ none → (elim id [ tbz ↦ x | _ ↦ y ]) ≢ none
  tbz_or-answers tbz x y h g = h
  tbz_or-answers _ x y h g = g

module _ (i : Insn) (w : Writer) where
  rewrite_b-answers : rewrite_b i w ≢ none
  unfolding rewrite_b
  rewrite_b-answers = rewrote-answers _ (put_jump-answers _ w)

  rewrite_b_cond-answers : rewrite_b_cond i w ≢ none
  unfolding rewrite_b_cond
  rewrite_b_cond-answers = rewrote-answers _ (put_two_ways-answers _ _ _ _)

  rewrite_bl-answers : rewrite_bl i w ≢ none
  unfolding rewrite_bl put_blr_reg put_blr_reg_with_extra
  rewrite_bl-answers = rewrote-answers _ (
      bind-answers _ _ (after-answers _ (put_ldr_reg_address-answers w Reg.lr _ (omega arith)))
        (λ v. after-answers _ (put_reg_branch-answers v _ Reg.lr _ (omega arith))))

  rewrite_adr-answers :
      IsReg (reg_at i.operands 0) → imm_at i.operands 1 ≢ none → rewrite_adr i w ≢ none
  unfolding rewrite_adr
  rewrite_adr-answers h some_imm = elim (Option-cases (imm_at i.operands 1)) [
    | inl e ↦ absurd (some_imm e)
    | inr (label, e) ↦
        rw (rewrite_adr, e)
          (rewrote-answers _
            (after-answers _ (put_ldr_reg_address-answers w (reg_at i.operands 0) label h)))
  ]

  rewrite_cbz-answers : IsReg (reg_at i.operands 0) → rewrite_cbz i w ≢ none
  unfolding rewrite_cbz put_cbz_reg_label put_cbnz_reg_label
  rewrite_cbz-answers h = rewrote-answers _ (
      bind-answers _ _
        (after-answers _ (
          cbz_or-answers i.id _ _ (put_cbx-answers _ 0 (reg_at i.operands 0) 0 h)
            (put_cbx-answers _ 1 (reg_at i.operands 0) 0 h)))
        (λ v. put_two_ways-answers _ _ _ v))

  rewrite_tbz-answers : IsReg (reg_at i.operands 0) → rewrite_tbz i w ≢ none
  unfolding rewrite_tbz put_tbz_reg_imm_label put_tbnz_reg_imm_label
  rewrite_tbz-answers h = rewrote-answers _ (
      bind-answers _ _
        (after-answers _ (
          tbz_or-answers i.id _ _ (put_tbx-answers _ 0 (reg_at i.operands 0) _ 0 h)
            (put_tbx-answers _ 1 (reg_at i.operands 0) _ 0 h)))
        (λ v. put_two_ways-answers _ _ _ v))

  abbrev dst : ℕ
  dst = reg_at i.operands 0

  abbrev is_vector : Bool
  is_vector = between Reg.s0 97 dst || between Reg.d0 129 dst || between Reg.q0 161 dst

  -- What a literal load is rewritten for: any register with LDR, a general one with LDRSW.
  IsLoad : Type 0
  IsLoad = ((i.id ≡ ldr) × IsReg dst) ⊎ ((i.id ≡ ldrsw) × ((1 ≤ dst) × (dst ≤ Reg.wzr)))

  abbrev tmp : ℕ
  tmp =
      if between Reg.w0 62 dst
      then Reg.x0 + (dst - Reg.w0)
      else if between 63 64 dst
      then 30 + (dst - 63)
      else dst

  load_vector-answers :
      (address : ℕ)
      → i.id ≡ ldr
      → IsReg dst
      → is_vector ≡ true
      → imm_at i.operands 1 ≡ some address
      → rewrite_ldr i w ≢ none
  unfolding rewrite_ldr
  load_vector-answers address is_ldr h vector e =
      rw (rewrite_ldr, e, vector, is_ldr)
        (rewrote-answers _ (
          bind-answers _ _ (after-answers _ (put_push-answers w)) (λ w₁.
            bind-answers _ _
              (bind-answers _ _
                (after-answers _ (put_ldr_reg_address-answers w₁ Reg.x0 address (omega arith)))
                (λ w₂.
                  after-answers _ (put_ldr_reg_reg_offset-answers w₂ dst Reg.x0 0 h (omega arith))))
              (λ w₃. after-answers _ (put_pop-answers w₃)))))

  load_general-answers :
      (address : ℕ)
      → IsLoad
      → is_vector ≡ false
      → imm_at i.operands 1 ≡ some address
      → rewrite_ldr i w ≢ none
  unfolding rewrite_ldr IsLoad
  load_general-answers address h vector e =
      let range : IsReg dst = ground arith in
      let range' : IsReg tmp = ground arith in
      let known : (i.id ≡ ldr) ⊎ (i.id ≡ ldrsw) = ground arith in
      rw (rewrite_ldr, e, vector)
        (rewrote-answers _ (
          bind-answers _ _ (after-answers _ (put_ldr_reg_address-answers w tmp address range'))
            (λ v. elim known [
              | inl is ↦
                  rw is (after-answers _ (put_ldr_reg_reg_offset-answers v dst tmp 0 range range'))
              | inr is ↦
                  rw is
                    (after-answers _ (put_ldrsw_reg_reg_offset-answers v dst tmp 0 range range'))
            ])))

  rewrite_ldr-answers : IsLoad → rewrite_ldr i w ≢ none
  unfolding IsLoad
  rewrite_ldr-answers h = elim (Option-cases (imm_at i.operands 1)) [
    | inl e ↦ unfold rewrite_ldr in rw (rewrite_ldr, e) (ground arith)
    | inr (address, e) ↦ elim (Bool-cases is_vector) [
      | inl vector ↦ load_vector-answers address (ground arith) (ground arith) vector e
      | inr general ↦ load_general-answers address h general e
    ]
  ]

  -- The switch of write_one, by the operation.
  rewrite_of-answers : (id : InsnId) → i.id ≡ id → Wants id i.operands → rewrite i w ≢ none
  unfolding rewrite IsLoad
  rewrite_of-answers ldr e h = rw (rewrite, e) (rewrite_ldr-answers (inl (e, h)))
  rewrite_of-answers ldrsw e h = rw (rewrite, e) (rewrite_ldr-answers (inr (e, h)))
  rewrite_of-answers adr e h = rw (rewrite, e) (rewrite_adr-answers h.0 h.1)
  rewrite_of-answers adrp e h = rw (rewrite, e) (rewrite_adr-answers h.0 h.1)
  rewrite_of-answers b e h =
      rw (rewrite, e) (ground (arith, rewrite_b-answers, rewrite_b_cond-answers))
  rewrite_of-answers bl e h = rw (rewrite, e) rewrite_bl-answers
  rewrite_of-answers cbz e h = rw (rewrite, e) (rewrite_cbz-answers h)
  rewrite_of-answers cbnz e h = rw (rewrite, e) (rewrite_cbz-answers h)
  rewrite_of-answers tbz e h = rw (rewrite, e) (rewrite_tbz-answers h)
  rewrite_of-answers tbnz e h = rw (rewrite, e) (rewrite_tbz-answers h)
  rewrite_of-answers _ e h = rw (rewrite, e) (ground arith)

-- Whatever word was decoded at whatever address, and whatever the writer's state, no rewrite
-- function of the relocator ends the process by an assertion.
pub rewrite-answers : (word pc : ℕ) (w : Writer) → rewrite (decode word pc) w ≢ none
unfolding Suits
rewrite-answers word pc w =
    rewrite_of-answers (decode word pc) w (decode word pc).id refl (decode-Suits word pc)
