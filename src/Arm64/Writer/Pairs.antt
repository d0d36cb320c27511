-- ===== src/Arm64/Writer/Pairs.antt =====
-- Load and store of register pairs of src/arch/arm64/hooxarm64writer.c, and the pushes and pops
-- made of them.
use hoox.Prelude.{
  ℕ, ◌+◌, ◌-◌, ◌*◌, ◌/◌, ◌^◌, bit_and, Bool, true, not, Option, none, some, List, [], ◌∷◌, ◌==◌,
  if◌then◌else◌, ◌>>=◌,
}
use mathlib.Core.List.{reverse}
use hoox.Prelude.Words.{◌<<◌, ◌or◌, u32, u64, sar}
use hoox.Arm64.Reg
use hoox.Arm64.Reg.{RegInfo, describe_reg}
use hoox.Arm64.Writer.{Writer}
use hoox.Arm64.Writer.Emit.{put_instruction}
use hoox.Arm64.Writer.Branches.{refuse}
use hoox.Arm64.Writer.Moves.{put_mov_reg_nzcv, put_mov_nzcv_reg}

-- enum _HooxArm64MemOperandType
pub data OperandType : Type 0 where
  i32 i64 s32 d64 q128 : OperandType

-- hoox_arm64_mem_operand_type_from_reg_info
unfoldable pub operand_type : RegInfo → Option OperandType
operand_type ri =
    if ri.is_integer
    then if ri.width == 32 then some i32 else if ri.width == 64 then some i64 else none
    else if ri.width == 32
    then some s32
    else if ri.width == 64
    then some d64
    else if ri.width == 128
    then some q128
    else none

-- `opc`, `is_vector` and `shift` of put_load_store_pair
pub record PairForm : Type 0 where
  pub opc : ℕ
  pub is_vector : ℕ
  pub shift : ℕ

unfoldable pub pair_form : OperandType → PairForm
pair_form i32 = record { opc = 0; is_vector = 0; shift = 2 }
pair_form i64 = record { opc = 2; is_vector = 0; shift = 3 }
pair_form s32 = record { opc = 0; is_vector = 1; shift = 2 }
pair_form d64 = record { opc = 1; is_vector = 1; shift = 3 }
pair_form q128 = record { opc = 2; is_vector = 1; shift = 4 }

-- HOOX_MEM_OPERATION_STORE and HOOX_MEM_OPERATION_LOAD
abbrev pub store : ℕ
store = 0

abbrev pub load : ℕ
load = 1

-- HooxArm64IndexMode
abbrev pub post_adjust : ℕ
post_adjust = 1

abbrev pub signed_offset : ℕ
signed_offset = 2

abbrev pub pre_adjust : ℕ
pre_adjust = 3

-- hoox_arm64_writer_put_load_store_pair
unfoldable pub put_load_store_pair : Writer → ℕ → OperandType → ℕ → ℕ → ℕ → ℕ → ℕ → Writer
put_load_store_pair w operation type rt rt2 rn rn_offset mode =
    let form = pair_form type in
    put_instruction w (
      u32 (
        form.opc << 30
        or 5 << 27
        or form.is_vector << 26
        or mode << 23
        or operation << 22
        or bit_and (sar rn_offset form.shift) 0x7f << 15
        or rt2 << 10
        or rn << 5
        or rt))

-- The body that the four pair functions share: both registers of one width.
unfoldable pub put_pair : ℕ → Writer → ℕ → ℕ → ℕ → (RegInfo → ℕ) → ℕ → Option (Bool × Writer)
put_pair operation w reg_a reg_b reg_base byte_offset mode = do
  ra ← describe_reg reg_a
  rb ← describe_reg reg_b
  rn ← describe_reg reg_base
  if not (ra.width == rb.width) then refuse w else do
    type ← operand_type ra
    some (true, put_load_store_pair w operation type ra.meta rb.meta rn.meta (byte_offset ra) mode)

-- hoox_arm64_writer_put_ldp_reg_reg_reg_offset
unfoldable pub put_ldp : Writer → ℕ → ℕ → ℕ → ℕ → ℕ → Option (Bool × Writer)
put_ldp w reg_a reg_b reg_src src_offset mode =
    put_pair load w reg_a reg_b reg_src (λ _. src_offset) mode

-- hoox_arm64_writer_put_stp_reg_reg_reg_offset
unfoldable pub put_stp : Writer → ℕ → ℕ → ℕ → ℕ → ℕ → Option (Bool × Writer)
put_stp w reg_a reg_b reg_dst dst_offset mode =
    put_pair store w reg_a reg_b reg_dst (λ _. dst_offset) mode

-- hoox_arm64_writer_put_push_reg_reg
unfoldable pub put_push_reg_reg : Writer → ℕ → ℕ → Option (Bool × Writer)
put_push_reg_reg w reg_a reg_b =
    put_pair store w reg_a reg_b Reg.sp (λ ra. u64 (2 ^ 64 - 2 * (ra.width / 8))) pre_adjust

-- hoox_arm64_writer_put_pop_reg_reg
unfoldable pub put_pop_reg_reg : Writer → ℕ → ℕ → Option (Bool × Writer)
put_pop_reg_reg w reg_a reg_b =
    put_pair load w reg_a reg_b Reg.sp (λ ra. 2 * (ra.width / 8)) post_adjust

-- A sequence of pushes or pops, whose results the code does not look at.
unfoldable pub put_pairs :
    (Writer → ℕ → ℕ → Option (Bool × Writer)) → List (ℕ × ℕ) → Writer → Option Writer
put_pairs one [] w = some w
put_pairs one ((a, b) ∷ rest) w = do (_, w') ← one w a b; put_pairs one rest w'

-- X0 and X1 up to X28 and X29, Q0 and Q1 up to Q30 and Q31
abbrev pairs_from : ℕ → List ℕ → List (ℕ × ℕ)
pairs_from first [] = []
pairs_from first (n ∷ ns) = (first + n, first + n + 1) ∷ pairs_from first ns

abbrev x_pairs : List (ℕ × ℕ)
x_pairs =
    pairs_from Reg.x0 (0 ∷ 2 ∷ 4 ∷ 6 ∷ 8 ∷ 10 ∷ 12 ∷ 14 ∷ 16 ∷ 18 ∷ 20 ∷ 22 ∷ 24 ∷ 26 ∷ 28 ∷ [])

abbrev q_pairs : List (ℕ × ℕ)
q_pairs =
    pairs_from Reg.q0
      (0 ∷ 2 ∷ 4 ∷ 6 ∷ 8 ∷ 10 ∷ 12 ∷ 14 ∷ 16 ∷ 18 ∷ 20 ∷ 22 ∷ 24 ∷ 26 ∷ 28 ∷ 30 ∷ [])

-- hoox_arm64_writer_put_push_all_x_registers: the flags go with X30, through X15.
unfoldable pub put_push_all_x_registers : Writer → Option Writer
put_push_all_x_registers w = do
  w₁ ← put_pairs put_push_reg_reg x_pairs w
  w₂ ← put_mov_reg_nzcv w₁ (Reg.x 15)
  put_pairs put_push_reg_reg ((Reg.x 30, Reg.x 15) ∷ []) w₂

-- hoox_arm64_writer_put_pop_all_x_registers
unfoldable pub put_pop_all_x_registers : Writer → Option Writer
put_pop_all_x_registers w = do
  w₁ ← put_pairs put_pop_reg_reg ((Reg.x 30, Reg.x 15) ∷ []) w
  w₂ ← put_mov_nzcv_reg w₁ (Reg.x 15)
  put_pairs put_pop_reg_reg (reverse x_pairs) w₂

-- hoox_arm64_writer_put_push_all_q_registers
unfoldable pub put_push_all_q_registers : Writer → Option Writer
put_push_all_q_registers = put_pairs put_push_reg_reg q_pairs

-- hoox_arm64_writer_put_pop_all_q_registers
unfoldable pub put_pop_all_q_registers : Writer → Option Writer
put_pop_all_q_registers = put_pairs put_pop_reg_reg (reverse q_pairs)
