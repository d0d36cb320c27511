-- ===== src/Arm64/Relocator/Reading.antt =====
-- The reading loop of hoox_arm64_relocator_relocate.
use hoox.Prelude.{
  ℕ, zero, suc, ◌+◌, ◌-◌, ◌*◌, ◌/◌, ◌%◌, ◌^◌, ◌≤◌, ◌<◌, ◌≡◌, refl, ◌∙◌, ap, inl, inr, Bool, true,
  false, Bool-cases, Option, none, some, arith, ◌==◌, if◌then◌else◌, ltb, ◌>>=◌,
}
use hoox.Prelude.Words.{u32, u64}
use hoox.Memory.{Mem, load_le}
use hoox.Arm64.Decoder.{decode, decode_at}
use hoox.Arm64.Writer.{Writer}
use hoox.Arm64.Relocator.{Relocator, max_input_insn_count, init, read_one, read_until, boundary}
use hoox.Arm64.Relocator.Ring.{IsRing, grown, read_one-grown}

-- Every position between the two counters holds an instruction that was decoded.
abbrev pub AllDecoded : Relocator → Type 0
AllDecoded r =
    (k : ℕ)
    → r.outpos ≤ k
    → k < r.inpos
    → (word : ℕ) × ((pc : ℕ) × (r.slots (k % max_input_insn_count) ≡ some (decode word pc)))

abbrev pub IsLoaded : Relocator → Type 0
IsLoaded r = IsRing r × AllDecoded r

-- A relocator that has read `count` instructions of its input and written none.
abbrev pub HasRead : Mem → ℕ → ℕ → Relocator → Type 0
HasRead m source count r =
    ((r.outpos ≡ 0) × (r.inpos ≡ count))
    × ((r.input_start ≡ source)
        × ((r.input_cur ≡ source + count * 4)
            × ((r.input_pc ≡ u64 (source + count * 4)) × ((r.output.mem ≡ m) × AllDecoded r))))

-- The instruction of number `k` ends the input.
abbrev pub ends_input : Mem → ℕ → ℕ → Bool
ends_input m source k = (boundary (decode_at m (source + k * 4) (u64 (source + k * 4))) false).1

-- One round of the loop that read `n` bytes so far.
read_until-round :
    (fuel min_bytes n : ℕ) (r r' : Relocator)
    → read_one r ≡ some (suc n, r')
    → read_until (suc fuel) min_bytes r
      ≡ (if ltb (suc n) min_bytes then read_until fuel min_bytes r' else some (suc n, r'))
unfolding read_until
read_until-round fuel min_bytes n r r' e =
    let some_bytes : (suc n == 0) ≡ false = ground arith in
    ap
      (λ (o : Option (ℕ × Relocator)). o >>= λ step.
        let rest = read_until fuel min_bytes step.1 in
        if step.0 == 0 then none else if ltb step.0 min_bytes then rest else some step)
      e
    ∙ rw some_bytes refl

module _ (m : Mem) (source : ℕ) where
  AllDecoded-grown :
      (r : Relocator) (count : ℕ)
      → count < max_input_insn_count
      → HasRead m source count r
      → AllDecoded (grown r)
  unfolding decode_at
  AllDecoded-grown r count room ((out, into), (start, (cur, (pc, (mem, decoded))))) k low high =
      elim (Bool-cases (k % max_input_insn_count == r.inpos % max_input_insn_count)) [
        | inl e ↦ rw e (load_le 4 r.output.mem r.input_cur, (r.input_pc, refl))
        | inr e ↦ rw e (decoded k (omega arith) (ground arith))
      ]

  HasRead-grown :
      (r : Relocator) (count : ℕ)
      → count < max_input_insn_count
      → HasRead m source count r
      → HasRead m source (count + 1) (grown r)
  HasRead-grown r count room h =
      let ((out, into), (start, (cur, (pc, (mem, decoded))))) = h in
      (
        (out, omega arith),
        (start, (omega arith, (omega arith, (mem, AllDecoded-grown r count room h)))),
      )

  eoi-grown :
      (r : Relocator) (count : ℕ)
      → HasRead m source count r
      → r.eoi ≡ false
      → (grown r).eoi ≡ ends_input m source count
  unfolding decode_at
  eoi-grown r count ((out, into), (start, (cur, (pc, (mem, decoded))))) e =
      rw (mem, cur, pc, e) refl

  module _ (min_bytes : ℕ) (in_ring : min_bytes ≤ 400)
      (long : (k : ℕ) → (k + 1) * 4 < min_bytes → ends_input m source k ≡ false) where
    -- What the loop comes back with: the least whole number of instructions that is long enough.
    abbrev pub Enough : ℕ × Relocator → Type 0
    Enough step =
        ((min_bytes ≤ step.0) × (step.0 < min_bytes + 4))
        × ((count : ℕ) × ((step.0 ≡ count * 4) × HasRead m source count step.1))

    read_one-count :
        (r : Relocator) (count : ℕ)
        → count * 4 < min_bytes
        → HasRead m source count r
        → r.eoi ≡ false
        → read_one r ≡ some ((count + 1) * 4, grown r)
    read_one-count r count more ((out, into), (start, (cur, (pc, rest)))) e =
        let bytes : u32 (r.input_cur + 4 - r.input_start) ≡ (count + 1) * 4 = omega arith in
        read_one-grown r e (omega arith) (omega arith) ∙ ap (λ (n : ℕ). some (n, grown r)) bytes

    read_until-Enough :
        (fuel : ℕ) (r : Relocator) (count : ℕ)
        → count * 4 < min_bytes
        → min_bytes ≤ (count + fuel) * 4
        → HasRead m source count r
        → r.eoi ≡ false
        → (step : ℕ × Relocator) × ((read_until fuel min_bytes r ≡ some step) × Enough step)
    read_until-Enough zero r count more enough h e = absurd (omega arith)
    read_until-Enough (suc fuel) r count more enough h e =
        let read = HasRead-grown r count (omega arith) h in
        let bytes : (count + 1) * 4 ≡ suc (count * 4 + 3) = omega arith in
        let one' : read_one r ≡ some (suc (count * 4 + 3), grown r) =
          read_one-count r count more h e ∙ ap (λ (n : ℕ). some (n, grown r)) bytes in
        elim (Bool-cases (ltb ((count + 1) * 4) min_bytes)) [
          | inl again ↦
              let again' : ltb (suc (count * 4 + 3)) min_bytes ≡ true = ground arith in
              let (step, (done, good)) =
                read_until-Enough fuel (grown r) (count + 1) (ground arith) (omega arith) read
                  (eoi-grown r count h e ∙ long count (ground arith)) in
              (
                step,
                (
                  read_until-round fuel min_bytes (count * 4 + 3) r (grown r) one'
                      ∙ rw (again', done) refl,
                  good,
                ),
              )
          | inr last ↦
              let last' : ltb (suc (count * 4 + 3)) min_bytes ≡ false = ground arith in
              (
                (suc (count * 4 + 3), grown r),
                (
                  read_until-round fuel min_bytes (count * 4 + 3) r (grown r) one' ∙ rw last' refl,
                  ((ground arith, omega arith), (count + 1, (omega arith, read))),
                ),
              )
        ]

    -- From the start, a round for each four bytes and one more is enough.
    pub read_until-init :
        (w : Writer)
        → w.mem ≡ m
        → source < 2 ^ 64
        → 0 < min_bytes
        → (step : ℕ × Relocator) × ((read_until (suc (min_bytes / 4)) min_bytes (init source w)
              ≡ some step)
            × Enough step)
    unfolding init
    read_until-init w e fits some_bytes =
        read_until-Enough (suc (min_bytes / 4)) (init source w) 0 (omega arith) (omega arith)
          (
            (refl, refl),
            (refl, (omega arith, (omega arith, (e, λ k low high. absurd (omega arith))))),
          )
          refl
