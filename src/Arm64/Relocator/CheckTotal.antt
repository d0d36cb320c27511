-- ===== src/Arm64/Relocator/CheckTotal.antt =====
-- can_relocate comes back on all code.
use mathlib.Core.Path.{subst}
use hoox.Arm64.Reg
use hoox.Arm64.Decoder.{Insn}
use hoox.Arm64.Relocator.{max_input_insn_count}
use hoox.Arm64.Relocator.CheckLaws.{shorten-le}
use hoox.Prelude.{
  ◌⊎◌, sym, none, ◌%◌, if_each, if_both, ℕ, zero, suc, ◌+◌, ◌-◌, ◌*◌, ◌/◌, ◌^◌, ◌≤◌, ◌<◌, ◌≡◌, refl,
  ◌∙◌, ap, inl, inr, Bool, true, false, not, List, [], Bool-cases, Option, some, arith, ◌==◌, leb,
  ltb, ◌>>=◌,
}
use hoox.Prelude.Words.{u32}
use hoox.Memory.{Mem}
use hoox.Arm64.Writer
use hoox.Arm64.Relocator.{Relocator, init, read_one, next_input}
use hoox.Arm64.Relocator.Check.{
  Scenario, Policy, default, checked, unchecked, forced, read_safe, is_safe_further, shorten,
  safe_length, reads_register, is_free_at, is_free_from, register_is_free, scratch_register,
  can_relocate,
}
use hoox.Arm64.Relocator.CheckSearch.{explore-answers}
use hoox.Arm64.Relocator.Ring.{grown, read_one-grown}

-- The first `count` entries of `input_insns` hold instructions.
abbrev AllRead : ℕ → (ℕ → Option Insn) → Type 0
AllRead count slots = (k : ℕ) → k < count → (i : Insn) × (slots k ≡ some i)

-- A relocator that has read `count` instructions and written none: as long as they fit into the
-- array, they stand there in order.
abbrev HasCounted : ℕ → Relocator → Type 0
HasCounted count r =
    (r.outpos ≡ 0)
    × (r.inpos ≡ count)
    × (r.input_cur ≡ r.input_start + count * 4)
    × (count ≤ max_input_insn_count → AllRead count r.slots)

-- What the reading loop leaves: no more bytes than it read instructions for.
abbrev HasRead : ℕ → ℕ × Relocator → Type 0
HasRead min_bytes (n, r) =
    (count : ℕ) × (n ≤ count * 4)
    × ((count ≤ 1) ⊎ (count * 4 < min_bytes + 4))
    × (count ≤ max_input_insn_count → AllRead count r.slots)

grown-AllRead :
    (r : Relocator) (count : ℕ)
    → r.inpos ≡ count
    → (count ≤ max_input_insn_count → AllRead count r.slots)
    → count + 1 ≤ max_input_insn_count
    → AllRead (count + 1) (grown r).slots
grown-AllRead r count into filled fits k low =
    let P : Option Insn → Type 0 = λ o. (i : Insn) × (o ≡ some i) in
    if_each P (k == r.inpos % max_input_insn_count) _ _ (λ here. (next_input r, refl))
      (λ other. filled (omega arith) k (ground arith))

is_free_at-answers :
    (reg : ℕ) (i : Insn) (rest : Option Bool)
    → ((b : Bool) × (rest ≡ some b))
    → (b : Bool) × (is_free_at reg (some i) rest ≡ some b)
unfolding is_free_at
is_free_at-answers reg i rest later =
    if_both (λ o. (b : Bool) × (o ≡ some b)) (reads_register reg i.operands) _ _ (false, refl) later

is_free_from-answers :
    (slots : ℕ → Option Insn) (reg index left count : ℕ)
    → AllRead count slots
    → index + left ≤ count
    → count ≤ max_input_insn_count
    → (b : Bool) × (is_free_from slots reg index left ≡ some b)
unfolding is_free_from
is_free_from-answers slots reg index zero count all within fits = (true, refl)
is_free_from-answers slots reg index (suc left) count all within fits =
    let (i, at) = all index (omega arith) in
    let rest = is_free_from slots reg (index + 1) left in
    let later = is_free_from-answers slots reg (index + 1) left count all (omega arith) fits in
    let P : Option Bool → Type 0 = λ o. (b : Bool) × (o ≡ some b) in
    if_each P (ltb index max_input_insn_count) _ _
      (λ inside.
        subst (λ slot. P (is_free_at reg slot rest)) (sym at) (is_free_at-answers reg i rest later))
      (λ outside. absurd (ground arith))

bind-answers {ℓ ℓ'} :
    {A : Type ℓ} {B : Type ℓ'} (m : Option A) (f : A → Option B)
    → ((a : A) × (m ≡ some a))
    → ((a : A) → (b : B) × (f a ≡ some b))
    → (b : B) × ((m >>= f) ≡ some b)
bind-answers none f (a, h) each = cc
bind-answers (some x) f (a, h) each = each x

scratch_register-answers :
    (r : Relocator) (n count : ℕ) (requested : Option ℕ)
    → n ≤ count * 4
    → (count ≤ max_input_insn_count → AllRead count r.slots)
    → (count ≤ max_input_insn_count) ⊎ (requested ≡ none)
    → (scratch : Option ℕ) × (scratch_register r n requested ≡ some scratch)
unfolding scratch_register register_is_free
scratch_register-answers r n count none few all bound = (none, refl)
scratch_register-answers r n count (some q) few all (inr no_wish) = cc
scratch_register-answers r n count (some q) few all (inl fits) =
    let is_free =
      λ (reg : ℕ). is_free_from-answers r.slots reg 0 (n / 4) count (all fits) (omega arith) fits in
    let P : Option (Option ℕ) → Type 0 = λ o. (x : Option ℕ) × (o ≡ some x) in
    if_both P (not (q == Reg.invalid)) _ _
      (bind-answers (register_is_free r n q) _ (is_free q) (λ free. (_, refl)))
      (bind-answers (register_is_free r n (Reg.x 16)) _ (is_free (Reg.x 16)) (λ free.
        if_both P free _ _ (_, refl)
          (bind-answers (register_is_free r n (Reg.x 17)) _ (is_free (Reg.x 17))
            (λ free'. (_, refl)))))

read_one-ended : (r : Relocator) → r.eoi ≡ true → read_one r ≡ some (0, r)
unfolding read_one
read_one-ended r e = rw (read_one, e) refl

safe_length-answers :
    (pick : List ℕ → ℕ) (m : Mem) (address : ℕ) (policy : Policy) (step : ℕ × Relocator)
    → (n : ℕ) × (safe_length pick m address policy step ≡ some n) × (n ≤ step.0)
unfolding safe_length
safe_length-answers pick m address checked (n, r) =
    let (seen, found) =
      explore-answers pick m r.input_cur r.input_pc 257 r.input_cur r.input_pc 1024 [] []
        (omega arith) in
    elim (Bool-cases r.eoi) [
      | inl over ↦ (n, rw (safe_length, over) refl, omega arith)
      | inr open_end ↦ (
        shorten address seen n,
        rw (safe_length, open_end, found) refl,
        shorten-le address seen n,
      )
    ]
safe_length-answers pick m address default (n, r) = (n, refl, omega arith)
safe_length-answers pick m address unchecked (n, r) = (n, refl, omega arith)
safe_length-answers pick m address forced (n, r) = (n, refl, omega arith)

module _ (scenario : Scenario) (min_bytes : ℕ) (small : min_bytes < 2 ^ 31) where
  read_safe-answers :
      (fuel count n : ℕ) (r : Relocator)
      → (count ≡ 0) ⊎ (count * 4 < min_bytes)
      → min_bytes ≤ (count + fuel) * 4
      → 0 < fuel
      → n ≤ count * 4
      → HasCounted count r
      → (step : ℕ × Relocator) × (read_safe fuel scenario min_bytes n r ≡ some step)
        × HasRead min_bytes step
  unfolding read_safe
  read_safe-answers zero count n r h enough more few (out, into, cur, all) = absurd (omega arith)
  read_safe-answers (suc fuel) count n r h enough more few (out, into, cur, all) =
      elim (Bool-cases r.eoi) [
        | inl over ↦
            ((n, r), rw (read_safe, read_one-ended r over) refl, (count, few, ground arith, all))
        | inr open_end ↦
            let bytes : u32 (r.input_cur + 4 - r.input_start) ≡ suc (count * 4 + 3) = omega arith in
            let one : read_one r ≡ some (suc (count * 4 + 3), grown r) =
              read_one-grown r open_end (omega arith) (omega arith)
              ∙ ap (λ (k : ℕ). some (k, grown r)) bytes in
            let all' = grown-AllRead r count into all in
            let nonzero : (suc (count * 4 + 3) == 0) ≡ false = ground arith in
            elim (Bool-cases (not (is_safe_further scenario (next_input r)))) [
              | inl unsafe ↦ (
                (suc (count * 4 + 3), grown r),
                rw (read_safe, one, nonzero, unsafe) refl,
                (count + 1, omega arith, ground arith, all'),
              )
              | inr safe ↦ elim (Bool-cases (ltb (suc (count * 4 + 3)) min_bytes)) [
                | inl again ↦
                    let further : suc (count * 4 + 3) < min_bytes = ground arith in
                    let (step, ends, has_read) =
                      read_safe-answers fuel (count + 1) (suc (count * 4 + 3)) (grown r)
                        (inr (omega arith)) (omega arith) (omega arith) (omega arith)
                        (out, omega arith, omega arith, all') in
                    (step, rw (read_safe, one, nonzero, safe, again) ends, has_read)
                | inr last ↦ (
                  (suc (count * 4 + 3), grown r),
                  rw (read_safe, one, nonzero, safe, last) refl,
                  (count + 1, omega arith, ground arith, all'),
                )
              ]
            ]
      ]

  -- can_relocate answers on any code, under every scenario and policy, and in whatever order the
  -- table of targets is gone through: when at most the 400 bytes that the array of instructions
  -- holds are asked for, with every wish for a scratch register, and without one when fewer than 2
  -- GiB are.
  pub can_relocate-answers :
      (pick : List ℕ → ℕ) (h : Writer.Host) (m : Mem) (buf address : ℕ) (policy : Policy)
      (requested : Option ℕ)
      → (min_bytes ≤ 400) ⊎ (requested ≡ none)
      → (answer : Bool × ℕ × Option ℕ) × (can_relocate pick h m buf address min_bytes scenario
            policy requested
          ≡ some answer)
  unfolding can_relocate init
  can_relocate-answers pick h m buf address policy requested bound =
      let (step, read, (count, few, low, all)) =
        read_safe-answers (suc (min_bytes / 4)) 0 0 (init address (Writer.init h m buf)) (inl refl)
          (omega arith) (omega arith) (omega arith)
          (refl, refl, omega arith, λ fits k low. absurd (omega arith)) in
      let (n, found, shorter) = safe_length-answers pick m address policy step in
      let (scratch, chosen) =
        scratch_register-answers step.1 n count requested (omega arith) all
          (elim bound [ inl small ↦ inl (ground arith) | inr no_wish ↦ inr no_wish ]) in
      ((leb min_bytes n, n, scratch), rw (can_relocate, read, found, chosen) refl)
