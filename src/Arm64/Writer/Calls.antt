-- ===== src/Arm64/Writer/Calls.antt =====
-- Calls with arguments and branches to any address, of src/arch/arm64/hooxarm64writer.c.
use hoox.Prelude.{
  ℕ, ◌+◌, Bool, not, Option, none, some, List, [], ◌∷◌, ◌==◌, if◌then◌else◌, ◌>>=◌, length,
}
use hoox.Arm64.Reg
use hoox.Arm64.Reg.{RegInfo, describe_reg}
use hoox.Arm64.Writer.{Writer}
use hoox.Arm64.Writer.Branches.{
  can_branch_directly_between, put_b_imm, put_bl_imm, put_br_reg, put_blr_reg,
}
use hoox.Arm64.Writer.Moves.{put_mov_reg_reg, put_uxtw_reg_reg}
use hoox.Arm64.Writer.Loads.{put_ldr_reg_address}

-- HooxArgument
pub data Argument : Type 0 where
  address : ℕ → Argument
  register : ℕ → Argument

-- The writer that a put function leaves, where the code does not look at the result.
abbrev pub after : Option (Bool × Writer) → Option Writer
after none = none
after (some (_, w)) = some w

-- One round of the loop of put_argument_list_setup, for the argument of number `index`.
unfoldable pub put_argument : ℕ → Argument → Writer → Option Writer
put_argument index (address a) w = after (put_ldr_reg_address w (Reg.x index) a)
put_argument index (register src) w = do
  rs ← describe_reg src
  if rs.width == 64
      then if not (src == Reg.x index) then after (put_mov_reg_reg w (Reg.x index) src) else some w
      else after (put_uxtw_reg_reg w (Reg.x index) src)

-- The arguments from number `index` on, the last one first.
unfoldable pub put_arguments_from : ℕ → List Argument → Writer → Option Writer
put_arguments_from index [] w = some w
put_arguments_from index (arg ∷ args) w = do
  w' ← put_arguments_from (index + 1) args w
  put_argument index arg w'

-- hoox_arm64_writer_put_argument_list_setup
unfoldable pub put_argument_list_setup : Writer → List Argument → Option Writer
put_argument_list_setup w args = put_arguments_from 0 args w

-- hoox_arm64_writer_put_call_address_with_arguments_array; the teardown does nothing.
unfoldable pub put_call_address_with_arguments : Writer → ℕ → List Argument → Option Writer
put_call_address_with_arguments w func args = do
  w₁ ← put_argument_list_setup w args
  let target = Reg.x (length args)
  if can_branch_directly_between w₁ w₁.pc func
      then some (put_bl_imm w₁ func).1
      else do (_, w₂) ← put_ldr_reg_address w₁ target func; after (put_blr_reg w₂ target)

-- hoox_arm64_writer_put_call_reg_with_arguments_array
unfoldable pub put_call_reg_with_arguments : Writer → ℕ → List Argument → Option Writer
put_call_reg_with_arguments w reg args = do
  w₁ ← put_argument_list_setup w args
  after (put_blr_reg w₁ reg)

-- hoox_arm64_writer_put_branch_address
unfoldable pub put_branch_address : Writer → ℕ → Option Writer
put_branch_address w target =
    if not (can_branch_directly_between w w.pc target)
    then (put_ldr_reg_address w (Reg.x 16) target >>= λ r. after (put_br_reg r.1 (Reg.x 16)))
    else some (put_b_imm w target).1
