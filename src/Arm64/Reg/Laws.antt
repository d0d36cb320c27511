-- ===== src/Arm64/Reg/Laws.antt =====
-- hoox_arm64_writer_describe_reg and the decoder's register numbers fit together.
use hoox.Prelude.{
  ℕ, ◌+◌, ◌≤◌, ◌<◌, ◌≡◌, ◌≢◌, ◌⊎◌, inl, inr, true, some, arith, Option-cases, ◌==◌, if◌then◌else◌,
}
use hoox.Arm64.Reg.{RegInfo, describe_reg, x_reg, w_reg}
use hoox.Arm64.Reg

module _ (reg : ℕ) {ri : RegInfo} (described : describe_reg reg ≡ some ri) where
  -- Every register has an index of five bits.
  pub meta-lt : ri.meta < 32
  unfolding describe_reg
  meta-lt = ground arith

  -- A width of 32, 64 or 128 bits.
  pub width_cases : (ri.width ≡ 32) ⊎ ((ri.width ≡ 64) ⊎ (ri.width ≡ 128))
  unfolding describe_reg
  width_cases = ground arith

  -- The decoder gives back each general register but SP, whose index is the zero register's.
  pub gp_reg-meta :
      ri.is_integer ≡ true
      → reg ≢ Reg.sp
      → (if ri.width == 64 then x_reg ri.meta else w_reg ri.meta) ≡ reg
  unfolding describe_reg x_reg w_reg
  gp_reg-meta i h = ground arith

  -- `sf` is bit 31 of a 64-bit operation on general registers.
  pub sf-width : ri.is_integer ≡ true → ri.sf ≡ (if ri.width == 64 then 0x80000000 else 0)
  unfolding describe_reg
  sf-width i = ground arith

  pub width-integer : ri.is_integer ≡ true → (ri.width ≡ 32) ⊎ (ri.width ≡ 64)
  unfolding describe_reg
  width-integer i = ground arith

  pub x_reg-meta : ri.is_integer ≡ true → ri.width ≡ 64 → reg ≢ Reg.sp → x_reg ri.meta ≡ reg
  unfolding describe_reg x_reg
  x_reg-meta i h n = ground arith

-- The general registers but SP: X0 to X30, XZR, W0 to W30 and WZR.
abbrev pub IsGeneral : ℕ → Type 0
IsGeneral reg = ((1 ≤ reg) × (reg ≤ Reg.wzr)) × (reg ≢ Reg.sp)

pub IsGeneral-described :
    (reg : ℕ)
    → IsGeneral reg
    → (ri : RegInfo) × ((describe_reg reg ≡ some ri) × (ri.is_integer ≡ true))
unfolding describe_reg
IsGeneral-described reg h = elim (Option-cases (describe_reg reg)) [
  | inl e ↦ absurd (ground arith)
  | inr (ri, e) ↦ (ri, (e, ground arith))
]

pub IsGeneral-x_reg :
    (reg : ℕ) {ri : RegInfo}
    → IsGeneral reg
    → describe_reg reg ≡ some ri
    → ri.width ≡ 64
    → x_reg ri.meta ≡ reg
unfolding describe_reg x_reg
IsGeneral-x_reg reg h described wide = ground arith

-- Among them the index 31 is the zero registers'.
pub IsGeneral-zero :
    (reg : ℕ) {ri : RegInfo}
    → IsGeneral reg
    → describe_reg reg ≡ some ri
    → ri.meta ≡ 31
    → (reg ≡ Reg.xzr) ⊎ (reg ≡ Reg.wzr)
unfolding describe_reg
IsGeneral-zero reg h described e = ground arith

-- The register that a literal load of a width names by its index, but for SP.
pub loaded_reg-meta :
    (reg : ℕ) {ri : RegInfo}
    → describe_reg reg ≡ some ri
    → reg ≢ Reg.sp
    → ri.width ≤ 64
    → (if ri.is_integer
        then if ri.width == 64 then x_reg ri.meta else w_reg ri.meta
        else if ri.width == 64
        then Reg.d0 + ri.meta
        else Reg.s0 + ri.meta)
      ≡ reg
unfolding describe_reg x_reg w_reg
loaded_reg-meta reg described n h = ground arith
