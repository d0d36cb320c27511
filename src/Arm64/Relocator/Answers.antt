-- ===== src/Arm64/Relocator/Answers.antt =====
-- Which put functions of the writer end the process on no register of the enumeration.
use hoox.Prelude.{ℕ, refl, ◌≢◌, Bool, Option, none, some, arith, ◌>>=◌}
use hoox.Arm64.Reg
use hoox.Arm64.Reg.{RegInfo, describe_reg, between}
use hoox.Arm64.Writer.{Writer}
use hoox.Arm64.Writer.Branches.{put_reg_branch, put_cbx_op_reg_imm, put_tbx_op_reg_imm_imm}
use hoox.Arm64.Writer.Moves.{put_mov_reg_reg}
use hoox.Arm64.Writer.Loads.{
  put_ldr_reg_literal, put_ldr_reg_u64, put_ldr_reg_address, put_single_offset,
  put_ldr_reg_reg_offset, put_ldrsw_reg_reg_offset,
}
use hoox.Arm64.Writer.Pairs.{put_pair, put_push_reg_reg, put_pop_reg_reg, operand_type}
use hoox.Arm64.Writer.Calls.{after}
use hoox.Arm64.Relocator.Decoded.{IsReg}

pub describe_reg-answers : (reg : ℕ) → IsReg reg → describe_reg reg ≢ none
unfolding describe_reg
describe_reg-answers reg h = ground arith

module _ {A B : Type 0} where
  pub bind-answers :
      (o : Option A) (f : A → Option B) → o ≢ none → ((a : A) → f a ≢ none) → (o >>= f) ≢ none
  bind-answers none f h g = λ e. h refl
  bind-answers (some a) f h g = g a

module _ (w : Writer) where
  pub put_reg_branch-answers :
      (opcode reg extra : ℕ) → IsReg reg → put_reg_branch opcode w reg extra ≢ none
  unfolding put_reg_branch
  put_reg_branch-answers opcode reg extra h =
      bind-answers (describe_reg reg) _ (describe_reg-answers reg h) (λ ri. ground arith)

  pub put_cbx-answers : (op reg target : ℕ) → IsReg reg → put_cbx_op_reg_imm w op reg target ≢ none
  unfolding put_cbx_op_reg_imm
  put_cbx-answers op reg target h =
      bind-answers (describe_reg reg) _ (describe_reg-answers reg h) (λ ri. ground arith)

  pub put_tbx-answers :
      (op reg bit target : ℕ) → IsReg reg → put_tbx_op_reg_imm_imm w op reg bit target ≢ none
  unfolding put_tbx_op_reg_imm_imm
  put_tbx-answers op reg bit target h =
      bind-answers (describe_reg reg) _ (describe_reg-answers reg h) (λ ri. ground arith)

  pub put_mov_reg_reg-answers :
      (dst src : ℕ) → IsReg dst → IsReg src → put_mov_reg_reg w dst src ≢ none
  unfolding put_mov_reg_reg
  put_mov_reg_reg-answers dst src h g =
      bind-answers (describe_reg dst) _ (describe_reg-answers dst h)
        (λ rd. bind-answers (describe_reg src) _ (describe_reg-answers src g) (λ rs. ground arith))

  pub put_ldr_reg_address-answers : (reg val : ℕ) → IsReg reg → put_ldr_reg_address w reg val ≢ none
  unfolding put_ldr_reg_address put_ldr_reg_u64 put_ldr_reg_literal
  put_ldr_reg_address-answers reg val h =
      bind-answers (describe_reg reg) _ (describe_reg-answers reg h)
        (λ ri. ground (arith, put_mov_reg_reg-answers reg Reg.xzr h (ground arith)))

  pub put_ldr_reg_reg_offset-answers :
      (dst src o : ℕ) → IsReg dst → IsReg src → put_ldr_reg_reg_offset w dst src o ≢ none
  unfolding put_ldr_reg_reg_offset put_single_offset
  put_ldr_reg_reg_offset-answers dst src o h g =
      bind-answers (describe_reg dst) _ (describe_reg-answers dst h)
        (λ rd. bind-answers (describe_reg src) _ (describe_reg-answers src g) (λ rs. ground arith))

  pub put_ldrsw_reg_reg_offset-answers :
      (dst src o : ℕ) → IsReg dst → IsReg src → put_ldrsw_reg_reg_offset w dst src o ≢ none
  unfolding put_ldrsw_reg_reg_offset
  put_ldrsw_reg_reg_offset-answers dst src o h g =
      bind-answers (describe_reg dst) _ (describe_reg-answers dst h)
        (λ rd. bind-answers (describe_reg src) _ (describe_reg-answers src g) (λ rs. ground arith))

  -- The pair of X0 and X1 that the rewrite of a vector load saves.
  pub put_push-answers : put_push_reg_reg w Reg.x0 (Reg.x 1) ≢ none
  unfolding put_push_reg_reg put_pair describe_reg operand_type
  put_push-answers = ground arith

  pub put_pop-answers : put_pop_reg_reg w Reg.x0 (Reg.x 1) ≢ none
  unfolding put_pop_reg_reg put_pair describe_reg operand_type
  put_pop-answers = ground arith

pub after-answers : (o : Option (Bool × Writer)) → o ≢ none → after o ≢ none
after-answers none h = absurd (h refl)
after-answers (some p) h = ground arith
