-- ===== src/Arm64/Reg.antt =====
-- The register numbers of src/disasm/hx_disasm.h (hx_arm64_reg) and their description by
-- hoox_arm64_writer_describe_reg of src/arch/arm64/hooxarm64writer.c. The code computes with
-- register numbers, so a register is its number.
pub mod Laws
use hoox.Prelude.{
  ℕ, ◌+◌, ◌-◌, ◌≤◌, ◌<◌, ◌≡◌, refl, ◌≢◌, Bool, true, false, ◌&&◌, Option, none, some, arith, leb,
  ◌==◌, if◌then◌else◌,
}

-- The enumeration, in its order: 0 is HX_ARM64_REG_INVALID, then X0 to X30, SP, XZR, W0 to W30,
-- WZR, and 32 each of S, D and Q.
abbrev pub invalid : ℕ
invalid = 0

abbrev pub x0 : ℕ
x0 = 1

-- HX_ARM64_REG_X0 + n
abbrev pub x : ℕ → ℕ
x n = x0 + n

-- HX_ARM64_REG_LR
abbrev pub lr : ℕ
lr = 31

abbrev pub sp : ℕ
sp = 32

abbrev pub xzr : ℕ
xzr = 33

abbrev pub w0 : ℕ
w0 = 34

abbrev pub wzr : ℕ
wzr = 65

abbrev pub s0 : ℕ
s0 = 66

abbrev pub d0 : ℕ
d0 = 98

abbrev pub q0 : ℕ
q0 = 130

-- `reg >= first && reg <= last`
abbrev pub between : ℕ → ℕ → ℕ → Bool
between first last reg = leb first reg && leb reg last

-- struct _HooxArm64RegInfo, less `operand_type`, which nothing sets or reads. `index` is `meta`
-- less HOOX_MREG_R0, which is 0.
pub record RegInfo : Type 0 where
  pub meta : ℕ
  pub is_integer : Bool
  pub width : ℕ
  pub sf : ℕ

-- HOOX_MREG_SP and HOOX_MREG_ZR
abbrev pub mreg_31 : ℕ
mreg_31 = 31

abbrev integer_64 : ℕ → RegInfo
integer_64 m = record { meta = m; is_integer = true; width = 64; sf = 0x80000000 }

abbrev integer_32 : ℕ → RegInfo
integer_32 m = record { meta = m; is_integer = true; width = 32; sf = 0 }

abbrev vector : ℕ → ℕ → RegInfo
vector w m = record { meta = m; is_integer = false; width = w; sf = 0 }

-- `none` is hx_assert_not_reached, which ends the process.
unfoldable pub describe_reg : ℕ → Option RegInfo
describe_reg reg =
    if between x0 29 reg
    then some (integer_64 (reg - x0))
    else if reg == 30
    then some (integer_64 29)
    else if reg == lr
    then some (integer_64 30)
    else if reg == sp
    then some (integer_64 mreg_31)
    else if between w0 64 reg
    then some (integer_32 (reg - w0))
    else if between s0 97 reg
    then some (vector 32 (reg - s0))
    else if between d0 129 reg
    then some (vector 64 (reg - d0))
    else if between q0 161 reg
    then some (vector 128 (reg - q0))
    else if reg == xzr
    then some (integer_64 mreg_31)
    else if reg == wzr
    then some (integer_32 mreg_31)
    else none

-- hx_x_reg and hx_w_reg of src/disasm/hx_disasm_arm64.c: a 5-bit field as a register.
unfoldable pub x_reg : ℕ → ℕ
x_reg n = if n == 31 then xzr else x0 + n

unfoldable pub w_reg : ℕ → ℕ
w_reg n = if n == 31 then wzr else w0 + n
