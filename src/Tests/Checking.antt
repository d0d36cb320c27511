-- ===== src/Tests/Checking.antt =====
-- The check before relocating at concrete inputs.
use mathlib.Core.List.{Memᴰ}
use hoox.Prelude.{
  ℕ, ◌-◌, ◌%◌, ◌≤◌, ◌≡◌, refl, inl, inr, Bool, false, List, [], ◌∷◌, Option, none, some, arith,
  ◌==◌, if◌then◌else◌, length,
}
use hoox.Arm64.Reg
use hoox.Arm64.Reg.{x_reg, w_reg}
use hoox.Arm64.Decoder.{Insn, Op, insn, decode, mov}
use hoox.Arm64.Relocator.{Relocator}
use hoox.Arm64.Relocator.Check.{
  online, checked, explore, shorten, reads_register, is_free_at, is_free_from, register_is_free,
  can_relocate,
}
use hoox.Arm64.Relocator.CheckLaws.{register_is_free_sound, store_pair-reads, shorten-bounds}
use hoox.Arm64.Relocator.CheckSearch.{explore-answers}
use hoox.Arm64.Relocator.CheckTotal.{can_relocate-answers}
use hoox.Tests.{start, host, code}

-- A relocator that has read MOV X1, X2.
abbrev move : Insn
move = insn mov 0x1008 0xaa0203e1 (Op.reg (Reg.x 1) ∷ Op.reg (Reg.x 2) ∷ [])

abbrev moving : Relocator
moving = record {
  input_start = 0x1008;
  input_cur = 0x100c;
  input_pc = 0x100c;
  slots = λ n. if n == 0 then some move else none;
  output = start;
  inpos = 1;
  outpos = 0;
  eob = false;
  eoi = false;
}

register_is_free_sound_example : ¬ Memᴰ (Op.reg (Reg.x 16)) move.operands
unfolding register_is_free is_free_from is_free_at reads_register
register_is_free_sound_example =
    register_is_free_sound moving 4 (Reg.x 16) 0 move refl (omega arith) refl

-- STP X0, X1, [X16] reads X16, and so does ORR X0, X16, X17, which is decoded as STP.
store_pair-reads_example : reads_register (Reg.x 16) (decode 0xaa110200 0x1000).operands ≡ false
unfolding x_reg w_reg
store_pair-reads_example =
    store_pair-reads 0xaa110200 0x1000 (Reg.x 16) refl refl (inr (ground arith))
      (ground arith, ground arith)

targets-aligned : (t : ℕ) → Memᴰ t (0x1040 ∷ 0x1008 ∷ []) → (t - 0x1000) % 4 ≡ 0
targets-aligned t (Memᴰ.head e) = rw e refl
targets-aligned t (Memᴰ.tail (Memᴰ.head e)) = rw e refl
targets-aligned t (Memᴰ.tail (Memᴰ.tail i)) = elim i [ ]

shorten-bounds_example : shorten 0x1000 (0x1040 ∷ 0x1008 ∷ []) 16 ≤ 0x1008 - 0x1000
shorten-bounds_example =
    shorten-bounds 0x1000 (0x1040 ∷ 0x1008 ∷ []) 16 (omega arith) targets-aligned 0x1008
      (Memᴰ.tail (Memᴰ.head refl)) (omega arith)

explore-answers_example :
    (seen : List ℕ) × (explore length code 0x1004 0x1004 5 0x1004 0x1004 16 [] [] ≡ some seen)
explore-answers_example =
    explore-answers length code 0x1004 0x1004 5 0x1004 0x1004 16 [] [] (omega arith)

can_relocate-answers_example :
    (answer : Bool × ℕ × Option ℕ) × (can_relocate length host code 0x9000 0x1000 16 online checked
        (some Reg.invalid)
      ≡ some answer)
can_relocate-answers_example =
    can_relocate-answers online 16 (omega arith) length host code 0x9000 0x1000 checked
      (some Reg.invalid) (inl (omega arith))
