-- ===== src/Arm64/Relocator/Check.antt =====
-- hoox_arm64_relocator_can_relocate and hoox_arm64_relocator_register_is_free of
-- src/arch/arm64/hooxarm64relocator.c: how much of a function may be moved.
use hoox.Prelude.{
  ℕ, zero, suc, ◌+◌, ◌-◌, ◌/◌, ◌^◌, Bool, true, false, not, ◌&&◌, Option, none, some, List, [], ◌∷◌,
  ltb, leb, ◌==◌, if◌then◌else◌, ◌>>=◌,
}
use hoox.Prelude.Words.{u32, u64}
use hoox.Memory.{Mem}
use hoox.Arm64.Reg
use hoox.Arm64.Decoder.{
  Insn, Op, disasm_iter, b, bl, blr, br, braa, braaz, brab, brabz, ret, retaa, retab, cbz, cbnz,
  tbz, tbnz, svc,
}
use hoox.Arm64.Writer
use hoox.Arm64.Relocator.{Relocator, max_input_insn_count, init, read_one, next_input}
use hoox.Arm64.Relocator.Rewrite.{target_at, is_unconditional}

-- HooxRelocationScenario and HooxRelocationPolicy
pub data Scenario : Type 0 where
  offline online : Scenario

pub data Policy : Type 0 where
  default checked unchecked forced : Policy

-- The switch of the reading loop: with other threads in the code, a call may still return there.
unfoldable pub is_safe_further : Scenario → Insn → Bool
is_safe_further offline i = true
is_safe_further online i = elim i.id [ bl ↦ false | blr ↦ false | svc ↦ false | _ ↦ true ]

-- The reading loop: the bytes that were read. `fuel` bounds its rounds, which read 4 bytes each.
unfoldable pub read_safe : ℕ → Scenario → ℕ → ℕ → Relocator → Option (ℕ × Relocator)
read_safe zero scenario min_bytes n r = none
read_safe (suc fuel) scenario min_bytes n r = read_one r >>= λ step.
    let rest = read_safe fuel scenario min_bytes step.0 step.1 in
    if step.0 == 0
    then some (n, step.1)
    else if not (is_safe_further scenario (next_input r))
    then some step
    else if ltb step.0 min_bytes
    then rest
    else some step

-- The hash tables of addresses, as lists without duplicates.
unfoldable pub contains : ℕ → List ℕ → Bool
contains t [] = false
contains t (x ∷ xs) = if x == t then true else contains t xs

unfoldable pub add : ℕ → List ℕ → List ℕ
add t xs = if contains t xs then xs else t ∷ xs

-- The switch of the search: whether it carries on, and the targets to check.
unfoldable pub visit : List ℕ → Insn → List ℕ → Bool × List ℕ
visit seen i todo =
    let branch = λ (t : ℕ). if contains t seen then todo else add t todo in
    elim i.id [
      | b ↦ (not (is_unconditional i), branch (target_at i 0))
      | cbz ↦ (true, branch (target_at i 1))
      | cbnz ↦ (true, branch (target_at i 1))
      | tbz ↦ (true, branch (target_at i 2))
      | tbnz ↦ (true, branch (target_at i 2))
      | ret ↦ (false, todo)
      | retaa ↦ (false, todo)
      | retab ↦ (false, todo)
      | br ↦ (false, todo)
      | braa ↦ (false, todo)
      | braaz ↦ (false, todo)
      | brab ↦ (false, todo)
      | brabz ↦ (false, todo)
      | _ ↦ (true, todo)
    ]

-- The inner loop from one address on, with the bytes that are left of the 1024 and the targets.
-- Every round takes 4 bytes, so that `size / 4` rounds are enough.
unfoldable pub sweep : Mem → List ℕ → ℕ → ℕ → ℕ → ℕ → List ℕ → ℕ × List ℕ
sweep m seen zero code size address todo = (size, todo)
sweep m seen (suc fuel) code size address todo = elim (disasm_iter m code size address) [
  | none ↦ (size, todo)
  | some (i, code', size', address') ↦
      let (carry_on, todo') = visit seen i todo in
      let rest = sweep m seen fuel code' size' address' todo' in
      if carry_on then rest else (size', todo')
]

-- The entry of a number in a table that is not empty, and the table without it.
unfoldable pub take_at : ℕ → ℕ → List ℕ → ℕ × List ℕ
take_at zero x xs = (x, xs)
take_at (suc k) x [] = (x, [])
take_at (suc k) x (y ∷ ys) = let (t, rest) = take_at k y ys in (t, x ∷ rest)

-- The outer loop: the addresses that were checked. Which entry the table's iterator comes to
-- first hangs on its hashes and is left open: `pick` gives the number of it. NULL ends the loop.
unfoldable pub explore :
    (List ℕ → ℕ) → Mem → ℕ → ℕ → ℕ → ℕ → ℕ → ℕ → List ℕ → List ℕ → Option (List ℕ)
explore pick m input_cur input_pc zero code address size seen todo = none
explore pick m input_cur input_pc (suc fuel) code address size seen todo =
    let seen' = add code seen in
    let (size', todo') = sweep m seen' (size / 4) code size address todo in
    elim todo' [
      | [] ↦ some seen'
      | x ∷ xs ↦
          let (t, todo₁) = take_at (pick (x ∷ xs)) x xs in
          let address' =
            if ltb input_cur t
            then u64 (t - input_cur + input_pc)
            else u64 (input_pc + 2 ^ 64 - (input_cur - t)) in
          let rest = explore pick m input_cur input_pc fuel t address' size' seen' todo₁ in
          if t == 0 then some seen' else rest
    ]

-- The last loop: no checked address lies behind the first of the `n` bytes and before their end.
unfoldable pub shorten : ℕ → List ℕ → ℕ → ℕ
shorten address [] n = n
shorten address (t ∷ ts) n =
    let inside = ltb address t && ltb (t - address) n in
    let n' = if inside then u32 (t - address) else n in
    if inside && n' == 4 then n' else shorten address ts n'

-- hoox_arm64_relocator_register_is_free: the operands that are registers.
unfoldable pub reads_register : ℕ → List Op → Bool
reads_register reg [] = false
reads_register reg (Op.reg r ∷ ops) = if r == reg then true else reads_register reg ops
reads_register reg (op ∷ ops) = reads_register reg ops

-- One round of the loop: an entry that is NULL is read through, which is undefined.
unfoldable pub is_free_at : ℕ → Option Insn → Option Bool → Option Bool
is_free_at reg none rest = none
is_free_at reg (some i) rest = if reads_register reg i.operands then some false else rest

-- The loop from one index on, over `left` instructions. The index does not wrap around as the ring
-- does: an entry behind the last of `input_insns` is undefined too, `none` here.
unfoldable pub is_free_from : (ℕ → Option Insn) → ℕ → ℕ → ℕ → Option Bool
unfolding is_free_at
is_free_from slots reg index zero = some true
is_free_from slots reg index (suc left) =
    let at = is_free_at reg (slots index) (is_free_from slots reg (index + 1) left) in
    if ltb index max_input_insn_count then at else none

unfoldable pub register_is_free : Relocator → ℕ → ℕ → Option Bool
unfolding is_free_from
register_is_free r n reg = is_free_from r.slots reg 0 (n / 4)

-- The choice of the scratch register, an inner `none` where the caller wants none.
unfoldable pub scratch_register : Relocator → ℕ → Option ℕ → Option (Option ℕ)
unfolding register_is_free
scratch_register r n none = some none
scratch_register r n (some requested) =
    let requested_if_free = register_is_free r n requested >>= λ free.
    some (some (if free then requested else Reg.invalid)) in
    let x17_if_free = register_is_free r n (Reg.x 17) >>= λ free.
    some (some (if free then Reg.x 17 else Reg.invalid)) in
    let one_of_two = register_is_free r n (Reg.x 16) >>= λ free.
    if free then some (some (Reg.x 16)) else x17_if_free in
    if not (requested == Reg.invalid) then requested_if_free else one_of_two

-- What the policy makes of the bytes that were read.
unfoldable pub safe_length : (List ℕ → ℕ) → Mem → ℕ → Policy → ℕ × Relocator → Option ℕ
safe_length pick m address checked (n, r) =
    if r.eoi
    then some n
    else explore pick m r.input_cur r.input_pc 257 r.input_cur r.input_pc 1024 [] [] >>= λ seen.
        some (shorten address seen n)
safe_length pick m address _ (n, r) = some n

-- hoox_arm64_relocator_can_relocate: the answer, the most bytes that may be moved and the scratch
-- register. `buf` is the buffer on the stack, which nothing is written to.
unfoldable pub can_relocate :
    (List ℕ → ℕ)
    → Writer.Host
    → Mem
    → ℕ
    → ℕ
    → ℕ
    → Scenario
    → Policy
    → Option ℕ
    → Option (Bool × ℕ × Option ℕ)
can_relocate pick h m buf address min_bytes scenario policy requested =
    read_safe (suc (min_bytes / 4)) scenario min_bytes 0 (init address (Writer.init h m buf))
    >>= λ step. safe_length pick m address policy step >>= λ n.
        scratch_register step.1 n requested >>= λ scratch. some (leb min_bytes n, n, scratch)
