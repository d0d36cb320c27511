-- ===== src/Arm64/Relocator/Jump.antt =====
-- What an unconditional branch is rewritten to: a load of its target and a jump through X16.
use hoox.Prelude.{
  ℕ, ◌+◌, ◌≡◌, refl, ◌∙◌, ap, ◌≢◌, ◌⊎◌, inl, inr, true, false, [], ◌∷◌, none, some, arith, ◌==◌,
  if◌then◌else◌,
}
use hoox.Prelude.Words.{u64, ◌<<◌, ◌or◌}
use hoox.Memory.{load_le}
use hoox.Memory.Laws.{load-store_le, load-store_le-Apart}
use hoox.Arm64.Reg
use hoox.Arm64.Reg.{describe_reg}
use hoox.Arm64.Decoder.{Insn, Op, decode_at, b, br, braaz}
use hoox.Arm64.Writer.{Writer, literal_64, add_literal_reference_here, sign}
use hoox.Arm64.Writer.Emit.{emit, put_instruction}
use hoox.Arm64.Writer.Branches.{word_offset, put_reg_branch, put_br_reg, put_br_reg_with_extra}
use hoox.Arm64.Writer.Loads.{
  put_ldr_reg_address, put_ldr_reg_u64, put_ldr_reg_literal, put_ldr_reg_pcrel,
}
use hoox.Arm64.Writer.Flow.{IsQuiet, put_instruction-emit}
use hoox.Arm64.RoundTrip.Registers.{put_br_reg-written}
use hoox.Arm64.Relocator.Rewrite.{put_jump, rewrite, rewrite_b, is_unconditional, target_at}

-- The word of a BR or BRAAZ through X16.
abbrev jump_word : Writer → ℕ
jump_word w = 0xd61f0000 or 16 << 5 or (if w.host.ptrauth then 0x81f else 0)

put_br_x16 : (w : Writer) → put_br_reg w (Reg.x 16) ≡ some (true, put_instruction w (jump_word w))
unfolding put_br_reg put_br_reg_with_extra put_reg_branch describe_reg
put_br_x16 w = refl

module _ (w : Writer) (target : ℕ) (set : target ≢ 0) where
  -- The writer behind the load, and behind the jump.
  abbrev loaded : Writer
  loaded = emit (add_literal_reference_here w target literal_64) 0x58000010

  abbrev jumped : Writer
  jumped = emit loaded (jump_word w)

  put_ldr_x16 :
      put_ldr_reg_address w (Reg.x 16) target
      ≡ some (true, put_instruction (add_literal_reference_here w target literal_64) 0x58000010)
  unfolding put_ldr_reg_address put_ldr_reg_u64 put_ldr_reg_literal put_ldr_reg_pcrel describe_reg
      word_offset
  put_ldr_x16 = let nonzero : (target == 0) ≡ false = ground arith in rw nonzero refl

  -- No literal waits yet.
  NoLiterals : Type 0
  NoLiterals =
      (w.earliest_literal_insn ≡ 0) × ((w.literal_refs ≡ none) ⊎ (w.literal_refs ≡ some []))

  IsQuiet-load : NoLiterals → IsQuiet (add_literal_reference_here w target literal_64)
  unfolding NoLiterals add_literal_reference_here
  IsQuiet-load (closed, empty) = elim empty [
    | inl e ↦ inr (rw (closed, e) (ground arith))
    | inr e ↦ inr (rw (closed, e) (ground arith))
  ]

  IsQuiet-jump : NoLiterals → IsQuiet loaded
  unfolding NoLiterals add_literal_reference_here emit
  IsQuiet-jump (closed, empty) = elim empty [
    | inl e ↦ inr (rw (closed, e) (ground arith))
    | inr e ↦ inr (rw (closed, e) (ground arith))
  ]

  load_word : load_le 4 jumped.mem w.code ≡ 0x58000010
  unfolding emit add_literal_reference_here
  load_word =
      load-store_le-Apart 4 loaded.mem (w.code + 4) _ 4 w.code (inr (omega arith))
      ∙ load-store_le 4 w.mem w.code 0x58000010 (omega arith)

  put_br-jumped : NoLiterals → put_br_reg loaded (Reg.x 16) ≡ some (true, jumped)
  unfolding emit add_literal_reference_here NoLiterals
  put_br-jumped h =
      put_br_x16 loaded
      ∙ ap (λ (v : Writer). some (true, v))
          (put_instruction-emit loaded (jump_word w) (IsQuiet-jump h))

  put_ldr-loaded : NoLiterals → put_ldr_reg_address w (Reg.x 16) target ≡ some (true, loaded)
  unfolding NoLiterals
  put_ldr-loaded h =
      put_ldr_x16
      ∙ ap (λ (v : Writer). some (true, v)) (put_instruction-emit _ 0x58000010 (IsQuiet-load h))

put_jump-jumped :
    (t : ℕ) (w : Writer) (set : sign w t ≢ 0)
    → NoLiterals w (sign w t) set
    → put_jump t w ≡ some (jumped w (sign w t) set)
unfolding put_jump
put_jump-jumped t w set h =
    rw (put_jump, put_ldr-loaded w (sign w t) set h, put_br-jumped w (sign w t) set h) refl

rewrite_b-jumped :
    (i : Insn) (w : Writer)
    → i.id ≡ b
    → is_unconditional i ≡ true
    → (set : sign w (target_at i 0) ≢ 0) → NoLiterals w (sign w (target_at i 0)) set
    → rewrite i w ≡ some (true, jumped w (sign w (target_at i 0)) set)
unfolding rewrite rewrite_b
rewrite_b-jumped i w is_b always set h =
    rw (rewrite, is_b, always, put_jump-jumped (target_at i 0) w set h) refl

-- Where no literal waits and the signed target is not 0, an unconditional B becomes a load of X16,
-- encoded as LDR (literal) with a clear offset, that refers to the signed target as its only
-- literal, and behind it a jump through X16: BR, or BRAAZ where the host has pointer
-- authentication.
pub rewrite_b-written :
    (i : Insn) (w : Writer)
    → i.id ≡ b
    → is_unconditional i ≡ true
    → w.earliest_literal_insn ≡ 0
    → (w.literal_refs ≡ none) ⊎ (w.literal_refs ≡ some [])
    → sign w (target_at i 0) ≢ 0
    → (w' : Writer) × ((rewrite i w ≡ some (true, w'))
        × ((w'.literal_refs
              ≡ some
                  (record { insn = w.code; val = sign w (target_at i 0); width = literal_64 } ∷ []))
            × ((load_le 4 w'.mem w.code ≡ 0x58000010)
                × (((decode_at w'.mem (w.code + 4) (u64 (w.pc + 4))).id
                      ≡ (if w.host.ptrauth then braaz else br))
                    × ((decode_at w'.mem (w.code + 4) (u64 (w.pc + 4))).operands
                        ≡ Op.reg (Reg.x 16) ∷ [])))))
unfolding rewrite rewrite_b put_jump NoLiterals emit add_literal_reference_here
rewrite_b-written i w is_b always closed empty set =
    let target = sign w (target_at i 0) in
    let (id, operands) =
      put_br_reg-written (loaded w target set) (Reg.x 16)
        (IsQuiet-jump w target set (closed, empty)) (ground arith)
        (put_br-jumped w target set (closed, empty)) in
    (
      jumped w target set,
      (
        rewrite_b-jumped i w is_b always set (closed, empty),
        (
          elim empty [ inl e ↦ rw e refl | inr e ↦ rw e refl ],
          (load_word w target set, (id, operands)),
        ),
      ),
    )
