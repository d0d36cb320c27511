-- ===== src/Arm64/Writer/Flow.antt =====
-- The flow of put_instruction: when the literal pool interrupts it, how deep it calls itself, and
-- how `code` and `pc` move together.
use hoox.Prelude.{
  ℕ, zero, suc, ◌+◌, ◌≤◌, ◌≡◌, refl, sym, ◌∙◌, ap, ◌⊎◌, inl, inr, Bool, Option, List, [], ◌∷◌,
  arith, leb, Option-cases, ◌==◌, if◌then◌else◌,
}
use hoox.Prelude.Words.{u64}
use hoox.Memory.{Mem}
use hoox.Arm64.Writer.{
  Writer, LiteralRef, literal_32, literal_64, put_label, skip, add_label_reference_here,
}
use hoox.Arm64.Writer.Commit.{
  commit_literals, commit_wide, commit_narrow, commit_literal, commit_pass, wide_literal,
  narrow_literal,
}
use hoox.Arm64.Writer.Emit.{
  emit, space_used, maybe_commit_literals, put_at, put_instruction, put_bytes, copy_bytes, spill,
}
use hoox.Arm64.Writer

-- The pool stays closed over this instruction: no literal is open, or they are all within reach.
abbrev pub IsQuiet : Writer → Type 0
IsQuiet w = (w.earliest_literal_insn ≡ 0) ⊎ (space_used (record w { code = w.code + 4 }) ≤ 1048572)

pub maybe_commit-quiet :
    (put : Writer → ℕ → Writer) (w : Writer)
    → (w.earliest_literal_insn ≡ 0) ⊎ (space_used w ≤ 1048572)
    → maybe_commit_literals put w ≡ w
unfolding maybe_commit_literals
maybe_commit-quiet put w h = ground arith

-- Then put_instruction writes the word and nothing else happens.
pub put_instruction-emit :
    (w : Writer) (insn : ℕ) → IsQuiet w → put_instruction w insn ≡ emit w insn
unfolding put_instruction put_at emit
put_instruction-emit w insn h = maybe_commit-quiet (put_at 1) (emit w insn) h

put_at-closed :
    (d : ℕ) (w : Writer) (insn : ℕ) → w.earliest_literal_insn ≡ 0 → put_at d w insn ≡ emit w insn
unfolding put_at emit
put_at-closed zero w insn h = refl
put_at-closed (suc d) w insn h = maybe_commit-quiet (put_at d) (emit w insn) (inl h)

-- The writer that the branch round the literals goes to.
abbrev closed : Writer → Writer
closed w = add_label_reference_here (record w { earliest_literal_insn = 0 }) w.code Writer.b

maybe_commit_congr :
    (p q : Writer → ℕ → Writer) (w : Writer)
    → p (closed w) 0x14000000 ≡ q (closed w) 0x14000000
    → maybe_commit_literals p w ≡ maybe_commit_literals q w
unfolding maybe_commit_literals spill
maybe_commit_congr p q w h =
    ap
      (λ (v : Writer).
        if w.earliest_literal_insn == 0
        then w
        else if leb (space_used w) 1048572
        then w
        else (put_label (commit_literals v) w.code).1)
      h

earliest-closed : (w : Writer) → (closed w).earliest_literal_insn ≡ 0
unfolding add_label_reference_here
earliest-closed w = refl

-- The call that put_instruction makes of itself through the literal pool makes no further one: with
-- any greater depth of calls the writer is the same.
pub put_at_depth : (d : ℕ) (w : Writer) (insn : ℕ) → put_at (suc d) w insn ≡ put_instruction w insn
unfolding put_at put_instruction
put_at_depth d w insn = maybe_commit_congr (put_at d) (put_at 1) (emit w insn) (
    put_at-closed d _ 0x14000000 (earliest-closed (emit w insn))
    ∙ sym (put_at-closed 1 _ 0x14000000 (earliest-closed (emit w insn))))

-- `pc` runs `delta` ahead of the address that is written to.
abbrev pub IsInStep : ℕ → Writer → Type 0
IsInStep delta w = w.pc ≡ u64 (w.code + delta)

-- What the pool needs to know of a pass over its literals: it ends where it began or later.
commit_literal-le :
    (big : Bool) (size literal : ℕ) (r : LiteralRef) (first last : ℕ) (m : Mem)
    → last ≤ (commit_literal big size literal r first last m).0
unfolding commit_literal
commit_literal-le big size literal r first last m = ground arith

commit_pass-le :
    (literal_of : LiteralRef → Option ℕ) (big : Bool) (size first : ℕ) (rs : List LiteralRef)
    (last : ℕ) (m : Mem)
    → last ≤ (commit_pass literal_of big size first rs last m).0
unfolding commit_pass
commit_pass-le literal_of big size first [] last m = omega arith
commit_pass-le literal_of big size first (r ∷ rs) last m = elim (Option-cases (literal_of r)) [
  | inl e ↦ rw (commit_pass, e) (commit_pass-le literal_of big size first rs last m)
  | inr (literal, e) ↦
      let (last', m') = commit_literal big size literal r first last m in
      rw (commit_pass, e)
        (omega (
          arith,
          commit_literal-le big size literal r first last m,
          commit_pass-le literal_of big size first rs last' m',
        ))
]

commit_wide-le :
    (big : Bool) (first : ℕ) (rs : List LiteralRef) (last : ℕ) (m : Mem)
    → last ≤ (commit_wide big first rs last m).0
unfolding commit_wide
commit_wide-le big first rs last m = commit_pass-le wide_literal big 8 first rs last m

commit_narrow-le :
    (big : Bool) (first : ℕ) (rs : List LiteralRef) (last : ℕ) (m : Mem)
    → last ≤ (commit_narrow big first rs last m).0
unfolding commit_narrow
commit_narrow-le big first rs last m = commit_pass-le narrow_literal big 4 first rs last m

module _ (delta : ℕ) where
  emit-IsInStep : (w : Writer) (insn : ℕ) → IsInStep delta w → IsInStep delta (emit w insn)
  unfolding emit
  emit-IsInStep w insn h = omega arith

  put_label-IsInStep : (w : Writer) (id : ℕ) → IsInStep delta w → IsInStep delta (put_label w id).1
  unfolding put_label
  put_label-IsInStep w id h = ground arith

  -- Writing the literals out moves both by the same amount.
  commit_literals-IsInStep : (w : Writer) → IsInStep delta w → IsInStep delta (commit_literals w)
  unfolding commit_literals
  commit_literals-IsInStep w h = elim (Option-cases w.literal_refs) [
    | inl e ↦ rw e h
    | inr ([], e) ↦ rw e h
    | inr (r ∷ rs, e) ↦
        let big = w.host.big_endian in
        let middle = commit_wide big w.code (r ∷ rs) w.code w.mem in
        rw e (
          omega (
            arith,
            commit_wide-le big w.code (r ∷ rs) w.code w.mem,
            commit_narrow-le big w.code (r ∷ rs) middle.0 middle.1,
          ))
  ]

  maybe_commit-IsInStep :
      (put : Writer → ℕ → Writer) (w : Writer)
      → IsInStep delta (put (closed w) 0x14000000)
      → IsInStep delta w
      → IsInStep delta (maybe_commit_literals put w)
  unfolding maybe_commit_literals spill
  maybe_commit-IsInStep put w kept h = ground (
    arith,
    put_label-IsInStep (commit_literals (put (closed w) 0x14000000)) w.code,
    commit_literals-IsInStep (put (closed w) 0x14000000),
  )

  closed-IsInStep : (w : Writer) → IsInStep delta w → IsInStep delta (closed w)
  unfolding add_label_reference_here
  closed-IsInStep w h = h

  put_at-IsInStep :
      (d : ℕ) (w : Writer) (insn : ℕ) → IsInStep delta w → IsInStep delta (put_at d w insn)
  unfolding put_at
  put_at-IsInStep zero w insn h = emit-IsInStep w insn h
  put_at-IsInStep (suc d) w insn h =
      maybe_commit-IsInStep (put_at d) (emit w insn)
        (put_at-IsInStep d (closed (emit w insn)) 0x14000000
          (closed-IsInStep (emit w insn) (emit-IsInStep w insn h)))
        (emit-IsInStep w insn h)

  -- put_instruction keeps the program counter a fixed distance ahead of the address that is written
  -- to, also where it writes out the literal pool.
  pub put_instruction-IsInStep :
      (w : Writer) (insn : ℕ) → IsInStep delta w → IsInStep delta (put_instruction w insn)
  unfolding put_instruction
  put_instruction-IsInStep w insn h = put_at-IsInStep 2 w insn h

  -- put_bytes keeps the program counter a fixed distance ahead of the address that is written to,
  -- also where it refuses the bytes or writes out the literal pool.
  pub put_bytes-IsInStep :
      (w : Writer) (bytes : List ℕ) → IsInStep delta w → IsInStep delta (put_bytes w bytes).1
  unfolding put_bytes
  put_bytes-IsInStep w bytes h =
      let v = copy_bytes w bytes in
      let moved : IsInStep delta v = unfold copy_bytes in omega arith in
      ground (
        arith,
        maybe_commit-IsInStep put_instruction v
            (put_instruction-IsInStep (closed v) 0x14000000 (closed-IsInStep v moved)) moved,
      )

  pub skip-IsInStep : (w : Writer) (n : ℕ) → IsInStep delta w → IsInStep delta (skip w n)
  unfolding skip
  skip-IsInStep w n h = omega arith
