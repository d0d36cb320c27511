-- ===== src/Arm64/Relocator/CheckSearch.antt =====
-- The search for branch targets in can_relocate ends.
use hoox.Prelude.{
  ℕ, zero, suc, ◌+◌, ◌-◌, ◌/◌, ◌^◌, ◌≤◌, ◌<◌, ◌≡◌, refl, ap, ◌⊎◌, inl, inr, List, [], ◌∷◌,
  Bool-cases, some, arith, ◌==◌, if◌then◌else◌, ltb, length,
}
use hoox.Prelude.Words.{u64}
use hoox.Memory.{Mem}
use hoox.Arm64.Relocator.Rewrite.{target_at}
use hoox.Arm64.Decoder.{InsnId, b, cbz, cbnz, tbz, tbnz, Insn, disasm_iter, decode_at}
use hoox.Arm64.Relocator.Check.{contains, add, visit, sweep, take_at, explore}

-- The measure of the search: the targets that are left, and the instructions.
branch-le :
    (seen todo : List ℕ) (t : ℕ)
    → length (if contains t seen then todo else add t todo) ≤ suc (length todo)
unfolding add
branch-le seen todo t = ground arith

visit_of-le :
    (seen todo : List ℕ) (i : Insn) (id : InsnId)
    → i.id ≡ id
    → length (visit seen i todo).1 ≤ suc (length todo)
unfolding visit
visit_of-le seen todo i b e = rw (visit, e) (branch-le seen todo (target_at i 0))
visit_of-le seen todo i cbz e = rw (visit, e) (branch-le seen todo (target_at i 1))
visit_of-le seen todo i cbnz e = rw (visit, e) (branch-le seen todo (target_at i 1))
visit_of-le seen todo i tbz e = rw (visit, e) (branch-le seen todo (target_at i 2))
visit_of-le seen todo i tbnz e = rw (visit, e) (branch-le seen todo (target_at i 2))
visit_of-le seen todo i _ e = rw (visit, e) (omega arith)

sweep-le :
    (m : Mem) (seen : List ℕ) (fuel code size address : ℕ) (todo : List ℕ)
    → let done = sweep m seen fuel code size address todo in
      done.0 / 4 + length done.1 ≤ size / 4 + length todo
unfolding sweep disasm_iter
sweep-le m seen zero code size address todo = omega arith
sweep-le m seen (suc fuel) code size address todo =
    let i = decode_at m code address in
    let grows = visit_of-le seen todo i i.id refl in
    let next =
      sweep-le m seen fuel (code + 4) (size - 4) (u64 (address + 4)) (visit seen i todo).1 in
    elim (Bool-cases (ltb size 4)) [
      | inl short ↦ rw (sweep, short) (omega arith)
      | inr long ↦
          let room : 4 ≤ size = ground arith in
          elim (Bool-cases (visit seen i todo).0) [
            | inl on ↦ rw (sweep, long, on) (omega arith)
            | inr off ↦ rw (sweep, long, off) (omega arith)
          ]
    ]

take_at-length : (k x : ℕ) (xs : List ℕ) → length (take_at k x xs).1 ≡ length xs
unfolding take_at
take_at-length zero x xs = refl
take_at-length (suc k) x [] = refl
take_at-length (suc k) x (y ∷ ys) = ap suc (take_at-length k y ys)

List-cases : (xs : List ℕ) → (xs ≡ []) ⊎ ((y : ℕ) × ((ys : List ℕ) × (xs ≡ y ∷ ys)))
List-cases [] = inl refl
List-cases (y ∷ ys) = inr (y, (ys, refl))

-- The search for branch targets ends after at most one round for each target to check, one for each
-- whole instruction of the bytes that are left, and one more, whatever entry the table's iterator
-- comes to first.
pub explore-answers :
    (pick : List ℕ → ℕ) (m : Mem) (input_cur input_pc fuel code address size : ℕ)
    (seen todo : List ℕ)
    → size / 4 + length todo < fuel
    → (checked : List ℕ) × (explore pick m input_cur input_pc fuel code address size seen todo
        ≡ some checked)
unfolding explore
explore-answers pick m cur pc zero code address size seen todo h = absurd (omega arith)
explore-answers pick m cur pc (suc fuel) code address size seen todo h =
    let seen' = add code seen in
    let done = sweep m seen' (size / 4) code size address todo in
    let shrinks = sweep-le m seen' (size / 4) code size address todo in
    elim (List-cases done.1) [
      | inl e ↦ (seen', rw (explore, e) refl)
      | inr (x, (xs, e)) ↦
          let (t, rest) = take_at (pick (x ∷ xs)) x xs in
          let shorter = ap length e in
          let taken = take_at-length (pick (x ∷ xs)) x xs in
          let address' = if ltb cur t then u64 (t - cur + pc) else u64 (pc + 2 ^ 64 - (cur - t)) in
          elim (Bool-cases (t == 0)) [
            | inl null ↦ (seen', rw (explore, e, null) refl)
            | inr more ↦
                let (found, ends) =
                  explore-answers pick m cur pc fuel t address' done.0 seen' rest (omega arith) in
                (found, rw (explore, e, more) ends)
          ]
    ]
