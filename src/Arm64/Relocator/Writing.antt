-- ===== src/Arm64/Relocator/Writing.antt =====
-- Writing what was read: write_one on each branch, write_all and the whole of relocate.
use hoox.Prelude.{
  ℕ, zero, suc, ◌+◌, ◌-◌, ◌*◌, ◌%◌, ◌^◌, ◌≤◌, ◌<◌, ◌≡◌, refl, ◌∙◌, ap, inl, inr, Bool, true, false,
  Bool-cases, Option-cases, none, some, arith, ◌==◌, if◌then◌else◌, leb, ltb,
}
use hoox.Prelude.Words.{u32}
use hoox.Memory.{Mem, bytes_le}
use hoox.Arm64.Decoder.{Insn, decode}
use hoox.Arm64.Writer.{Writer}
use hoox.Arm64.Writer.Emit.{clear, put_bytes}
use hoox.Arm64.Writer
use hoox.Arm64.Relocator.{
  Relocator, max_input_insn_count, increment_outpos, peek_next_write_insn, write_one, write_loop,
  write_all, relocate,
}
use hoox.Arm64.Relocator.Rewrite.{rewrite}
use hoox.Arm64.Relocator.Ring.{IsRing}
use hoox.Arm64.Relocator.Reading.{AllDecoded, IsLoaded, ends_input, read_until-init}
use hoox.Arm64.Relocator.Total.{rewrite-answers}

-- What write_one leaves in the output: the rewritten instruction, or the instruction as it is.
abbrev pub output_of : Insn → Bool × Writer → Writer
output_of i done = if done.0 then done.1 else (put_bytes done.1 (bytes_le 4 i.word)).1

module _ (r : Relocator) (ring : IsRing r) where
  peek-empty : r.outpos ≡ r.inpos → peek_next_write_insn r ≡ none
  unfolding peek_next_write_insn
  peek-empty e = let same : (r.outpos == r.inpos) ≡ true = ground arith in rw same refl

  peek-full :
      (i : Insn)
      → r.outpos < r.inpos
      → r.slots (r.outpos % max_input_insn_count) ≡ some i
      → peek_next_write_insn r ≡ some i
  unfolding peek_next_write_insn
  peek-full i more e = let waiting : (r.outpos == r.inpos) ≡ false = ground arith in rw waiting e

  increment_outpos-some :
      r.outpos < r.inpos → increment_outpos r ≡ some (record r { outpos = r.outpos + 1 })
  unfolding increment_outpos
  increment_outpos-some more =
      let small : u32 (r.outpos + 1) ≡ r.outpos + 1 = omega arith in
      let ordered : leb (r.outpos + 1) r.inpos ≡ true = ground arith in rw (small, ordered) refl

  -- write_one on an empty queue.
  write_one-empty : r.outpos ≡ r.inpos → write_one r ≡ some (false, r)
  unfolding write_one
  write_one-empty e = rw (write_one, peek-empty e) refl

  -- write_one on an instruction: it leaves the queue, rewritten or as it is.
  pub write_one-full :
      (i : Insn) {done : Bool × Writer}
      → r.outpos < r.inpos
      → r.slots (r.outpos % max_input_insn_count) ≡ some i
      → rewrite i r.output ≡ some done
      → write_one r ≡ some (true, record r { outpos = r.outpos + 1; output = output_of i done })
  unfolding write_one
  write_one-full i more e rewritten =
      rw (write_one, peek-full i more e, increment_outpos-some more, rewritten) refl

  -- A loaded relocator always goes on to the next instruction.
  write_one-advances :
      AllDecoded r
      → r.outpos < r.inpos
      → (w : Writer) × (write_one r ≡ some (true, record r { outpos = r.outpos + 1; output = w }))
  write_one-advances decoded more =
      let (word, (pc, e)) = decoded r.outpos (omega arith) more in
      elim (Option-cases (rewrite (decode word pc) r.output)) [
        | inl never ↦ absurd (rewrite-answers word pc r.output never)
        | inr (done, rewritten) ↦
            (output_of (decode word pc) done, write_one-full (decode word pc) more e rewritten)
      ]

-- Enough fuel empties the queue, and counts what was in it.
write_loop-drains :
    (fuel count : ℕ) (r : Relocator)
    → IsLoaded r
    → r.inpos - r.outpos < fuel
    → (r' : Relocator) × ((write_loop fuel count r ≡ some (count + (r.inpos - r.outpos), r'))
        × ((r'.outpos ≡ r.inpos) × (r'.inpos ≡ r.inpos)))
unfolding write_loop
write_loop-drains zero count r loaded enough = absurd (omega arith)
write_loop-drains (suc fuel) count r ((low, (room, high)), decoded) enough =
    elim (Bool-cases (r.outpos == r.inpos)) [
      | inl e ↦
          let same : r.outpos ≡ r.inpos = ground arith in
          let nothing : count ≡ count + (r.inpos - r.outpos) = omega arith in
          (
            r,
            (
              rw (write_loop, write_one-empty r (low, (room, high)) same)
                  (ap (λ (n : ℕ). some (n, r)) nothing),
              (same, refl),
            ),
          )
      | inr e ↦
          let more : r.outpos < r.inpos = ground arith in
          let (w, one) = write_one-advances r (low, (room, high)) decoded more in
          let (r', (done, (out, into))) =
            write_loop-drains fuel (count + 1) (record r { outpos = r.outpos + 1; output = w })
              ((omega arith, (omega arith, high)), λ k l u. decoded k (omega arith) u)
              (omega arith) in
          let total : count + 1 + (r.inpos - (r.outpos + 1)) ≡ count + (r.inpos - r.outpos) =
            omega arith in
          (r', (rw (write_loop, one) (done ∙ ap (λ (n : ℕ). some (n, r')) total), (out, into)))
    ]

-- On a ring in order, whose instructions were decoded and one of which waits, write_all comes back
-- with all of them written.
pub write_all-drains :
    (r : Relocator)
    → IsLoaded r
    → r.outpos < r.inpos
    → (r' : Relocator) × ((write_all r ≡ some r') × ((r'.outpos ≡ r.inpos) × (r'.inpos ≡ r.inpos)))
unfolding write_all
write_all-drains r loaded more =
    let (r', (done, ends)) =
      write_loop-drains (suc (r.inpos - r.outpos)) 0 r loaded (omega arith) in
    let some_written : ltb 0 (0 + (r.inpos - r.outpos)) ≡ true = ground arith in
    (r', (rw (done, some_written) refl, ends))

-- relocate comes back for a request of at least one byte and at most the 400 that the ring holds,
-- from an address of 64 bits, when no instruction before the last one that is needed ends the
-- input. It moves the least whole number of instructions that is long enough.
pub relocate-answers :
    (h : Writer.Host) (m : Mem) (source min_bytes destination : ℕ)
    → 0 < min_bytes
    → min_bytes ≤ 400
    → source < 2 ^ 64
    → ((k : ℕ) → (k + 1) * 4 < min_bytes → ends_input m source k ≡ false)
    → (n : ℕ) × ((m' : Mem) × ((relocate h m source min_bytes destination ≡ some (n, m'))
          × ((min_bytes ≤ n) × ((n < min_bytes + 4) × (n % 4 ≡ 0)))))
unfolding relocate
relocate-answers h m source min_bytes destination some_bytes in_ring fits long =
    let w = Writer.init h m destination in
    let same : w.mem ≡ m = unfold Writer.init Writer.reset Writer.reset_refs in refl in
    let (step, (read, ((low, high), (count, (bytes, was))))) =
      read_until-init m source min_bytes in_ring long w same fits some_bytes in
    let ((out, into), (start, (cur, (pc, (mem, decoded))))) = was in
    let (r, (wrote, ends)) =
      write_all-drains step.1 ((omega arith, (omega arith, omega arith)), decoded) (omega arith) in
    (step.0, ((clear r.output).mem, (rw (read, wrote) refl, (low, (high, omega arith)))))
