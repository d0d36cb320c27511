-- ===== src/Arm64/Relocator/Decoded.antt =====
-- What the relocator's rewrite functions rely on in the instructions that the decoder makes.
use hoox.Prelude.{
  ℕ, ◌≤◌, ◌<◌, ◌≡◌, ◌≢◌, inl, inr, Bool, true, false, List, [], none, some, arith, ◌==◌,
  if◌then◌else◌, Option-cases, not, bit_and,
}
use hoox.Arm64.Reg
use hoox.Arm64.Reg.{x_reg, w_reg}
use hoox.Arm64.Decoder.{
  Insn, InsnId, insn, Op, decode, decode_adr, decode_branch, decode_branch_cond,
  decode_compare_branch, decode_test_branch, decode_load_literal, decode_rest, decode_branch_reg,
  decode_mov, decode_store_pair, gp_reg, ldr, ldrsw, adr, adrp, cbz, cbnz, tbz, tbnz, svc, invalid,
}
use hoox.Arm64.Decoder.Masks.{low_5}
use hoox.Arm64.Relocator.Rewrite.{reg_at, imm_at}

-- A register of the enumeration that hoox_arm64_writer_describe_reg knows: all but INVALID.
abbrev pub IsReg : ℕ → Type 0
IsReg reg = (1 ≤ reg) × (reg ≤ 161)

-- For each operation that is rewritten: a register where one is read, no vector register with a
-- sign-extending load, an address for ADR and ADRP, and a condition's number.
abbrev pub Wants : InsnId → List Op → Type 0
Wants ldr ops = IsReg (reg_at ops 0)
Wants ldrsw ops = (1 ≤ reg_at ops 0) × (reg_at ops 0 ≤ Reg.wzr)
Wants adr ops = IsReg (reg_at ops 0) × (imm_at ops 1 ≢ none)
Wants adrp ops = IsReg (reg_at ops 0) × (imm_at ops 1 ≢ none)
Wants cbz ops = IsReg (reg_at ops 0)
Wants cbnz ops = IsReg (reg_at ops 0)
Wants tbz ops = IsReg (reg_at ops 0)
Wants tbnz ops = IsReg (reg_at ops 0)
Wants _ ops = 0 ≤ 0

unfoldable pub Suits : Insn → Type 0
Suits i = Wants i.id i.operands

gp_reg-range : (wide : Bool) (n : ℕ) → n < 32 → (1 ≤ gp_reg wide n) × (gp_reg wide n ≤ Reg.wzr)
unfolding x_reg w_reg
gp_reg-range wide n h = ground arith

if_both : {A : Type 0} (P : A → Type 0) (c : Bool) {x y : A} → P x → P y → P (if c then x else y)
if_both P true p q = p
if_both P false p q = q

-- An operation that is not rewritten wants nothing, and neither do those that a case below makes.
if_either :
    (c : Bool) (i j : InsnId) (ops : List Op)
    → Wants i ops
    → Wants j ops
    → Wants (if c then i else j) ops
if_either true i j ops p q = p
if_either false i j ops p q = q

module _ (w address : ℕ) where
  index-lt : bit_and w 0x1f < 32
  index-lt = omega (arith, low_5 w)

  adr-Suits : Suits (decode_adr w address)
  unfolding decode_adr Suits x_reg
  adr-Suits = ground (arith, index-lt)

  branch-Suits : Suits (decode_branch w address)
  unfolding decode_branch Suits
  branch-Suits = ground arith

  branch_cond-Suits : Suits (decode_branch_cond w address)
  unfolding decode_branch_cond Suits
  branch_cond-Suits = ground arith

  compare-Suits : Suits (decode_compare_branch w address)
  unfolding decode_compare_branch Suits
  compare-Suits =
      let range = gp_reg-range (not (bit_and w 0x80000000 == 0)) (bit_and w 0x1f) index-lt in
      let small : IsReg (gp_reg (not (bit_and w 0x80000000 == 0)) (bit_and w 0x1f)) =
        ground arith in
      if_either (not (bit_and w 0x01000000 == 0)) cbnz cbz _ small small

  test-Suits : Suits (decode_test_branch w address)
  unfolding decode_test_branch Suits
  test-Suits =
      let range = gp_reg-range (not (bit_and w 0x80000000 == 0)) (bit_and w 0x1f) index-lt in
      let small : IsReg (gp_reg (not (bit_and w 0x80000000 == 0)) (bit_and w 0x1f)) =
        ground arith in
      if_either (not (bit_and w 0x01000000 == 0)) tbnz tbz _ small small

  -- A literal load that is decoded: vector registers with LDR only.
  literal-Suits : {i : Insn} → decode_load_literal w address ≡ some i → Suits i
  unfolding decode_load_literal Suits x_reg w_reg
  literal-Suits e = ground (arith, index-lt)

  branch_reg-Suits : Suits (decode_branch_reg w address)
  unfolding decode_branch_reg Suits
  branch_reg-Suits = ground arith

  mov-Suits : Suits (decode_mov w address)
  unfolding decode_mov Suits
  mov-Suits = ground arith

  store_pair-Suits : Suits (decode_store_pair w address)
  unfolding decode_store_pair Suits
  store_pair-Suits = ground arith

  invalid-Suits : (ops : List Op) → Suits (insn invalid address w ops)
  unfolding Suits
  invalid-Suits ops = ground arith

  svc-Suits : (ops : List Op) → Suits (insn svc address w ops)
  unfolding Suits
  svc-Suits ops = ground arith

  rest-Suits : Suits (decode_rest w address)
  unfolding decode_rest
  rest-Suits = if_both Suits _ branch_reg-Suits (
      if_both Suits _ (svc-Suits [])
        (if_both Suits _ mov-Suits (if_both Suits _ store_pair-Suits (invalid-Suits _))))

  literal_or-Suits :
      Suits (elim (decode_load_literal w address) [ some i ↦ i | none ↦ decode_rest w address ])
  literal_or-Suits = elim (Option-cases (decode_load_literal w address)) [
    | inl e ↦ rw e rest-Suits
    | inr (i, e) ↦ rw e (literal-Suits e)
  ]

  -- Every word decodes to operands of the kinds that the relocator reads.
  pub decode-Suits : Suits (decode w address)
  unfolding decode
  decode-Suits = if_both Suits _ adr-Suits (
      if_both Suits _ branch-Suits (
        if_both Suits _ branch_cond-Suits (
          if_both Suits _ compare-Suits
            (if_both Suits _ test-Suits (if_both Suits _ literal_or-Suits rest-Suits)))))
