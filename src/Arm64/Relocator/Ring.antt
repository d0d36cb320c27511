-- ===== src/Arm64/Relocator/Ring.antt =====
-- The relocator's ring of instructions as a queue.
use hoox.Prelude.{
  ℕ, zero, suc, ◌+◌, ◌-◌, ◌%◌, ◌^◌, ◌≤◌, ◌<◌, ◌≡◌, refl, ◌∙◌, ap, Bool, true, false, List, [], ◌∷◌,
  ◌++◌, Option, none, some, arith, ◌==◌, if◌then◌else◌, leb, ltb, ◌>>=◌,
}
use hoox.Prelude.Words.{u32, u64}
use hoox.Arm64.Decoder.{Insn}
use hoox.Arm64.Relocator.{
  Relocator, max_input_insn_count, increment_inpos, increment_outpos, next_input, read_one,
  boundary, peek_next_write_insn, skip_one,
}

-- `n` slots of the ring from position `from` on.
unfoldable pub slots_from : (ℕ → Option Insn) → ℕ → ℕ → List (Option Insn)
slots_from slots from zero = []
slots_from slots from (suc n) = slots (from % max_input_insn_count) ∷ slots_from slots (from + 1) n

-- The instructions that were read and not written yet, the oldest first.
unfoldable pub queue : Relocator → List (Option Insn)
queue r = slots_from r.slots r.outpos (r.inpos - r.outpos)

-- The head of a queue, where it has one.
abbrev pub head_of : List (Option Insn) → Option Insn
head_of [] = none
head_of (i ∷ q) = i

-- The positions are in order, no more than the ring holds lies between them, and the counters do
-- not wrap around.
abbrev pub IsRing : Relocator → Type 0
IsRing r = (r.outpos ≤ r.inpos) × ((r.inpos - r.outpos ≤ max_input_insn_count) × (r.inpos < 2 ^ 32))

-- There is room for one more.
abbrev pub HasRoom : Relocator → Type 0
HasRoom r =
    (r.outpos ≤ r.inpos) × ((r.inpos - r.outpos < max_input_insn_count) × (r.inpos + 1 < 2 ^ 32))

slots_from-append :
    (slots : ℕ → Option Insn) (start n k : ℕ)
    → k ≡ start + n
    → slots_from slots start (suc n)
      ≡ slots_from slots start n ++ (slots (k % max_input_insn_count) ∷ [])
unfolding slots_from
slots_from-append slots start zero k e =
    let same : start ≡ k = omega arith in ap (λ (j : ℕ). slots (j % max_input_insn_count) ∷ []) same
slots_from-append slots start (suc n) k e =
    ap (λ (q : List (Option Insn)). slots (start % max_input_insn_count) ∷ q)
      (slots_from-append slots (start + 1) n k (omega arith))

-- What is put into a slot that none of `n` positions uses leaves them alone.
slots_from-outside :
    (slots : ℕ → Option Insn) (i : Option Insn) (start n k : ℕ)
    → start + n ≤ k
    → k < start + max_input_insn_count
    → slots_from (λ j. if j == k % max_input_insn_count then i else slots j) start n
      ≡ slots_from slots start n
unfolding slots_from
slots_from-outside slots i start zero k low high = refl
slots_from-outside slots i start (suc n) k low high =
    let other : (start % max_input_insn_count == k % max_input_insn_count) ≡ false = ground arith in
    rw (other, slots_from-outside slots i (start + 1) n k (omega arith) (omega arith)) refl

module _ (r : Relocator) where
  -- The relocator with one instruction more, as read_one leaves it.
  abbrev pub grown : Relocator
  grown =
      let (eob, eoi) = boundary (next_input r) r.eoi in
      record r {
        slots = λ j. if j == r.inpos % max_input_insn_count then some (next_input r) else r.slots j;
        eob = eob;
        eoi = eoi;
        inpos = r.inpos + 1;
        input_cur = r.input_cur + 4;
        input_pc = u64 (r.input_pc + 4);
      }

  increment_inpos-some :
      (q : Relocator)
      → q.outpos ≤ q.inpos
      → q.inpos + 1 < 2 ^ 32
      → increment_inpos q ≡ some (record q { inpos = q.inpos + 1 })
  unfolding increment_inpos
  increment_inpos-some q low high =
      let small : u32 (q.inpos + 1) ≡ q.inpos + 1 = omega arith in
      let after : ltb q.outpos (q.inpos + 1) ≡ true = ground arith in rw (small, after) refl

  abbrev filled : Relocator
  filled =
      let (eob, eoi) = boundary (next_input r) r.eoi in
      record r {
        slots = λ j. if j == r.inpos % max_input_insn_count then some (next_input r) else r.slots j;
        eob = eob;
        eoi = eoi;
      }

  -- What read_one does where there is input left.
  pub read_one-grown :
      r.eoi ≡ false
      → r.outpos ≤ r.inpos
      → r.inpos + 1 < 2 ^ 32
      → read_one r ≡ some (u32 (r.input_cur + 4 - r.input_start), grown)
  unfolding read_one
  read_one-grown e low high =
      ap
        (λ (o : Option Relocator).
          if r.eoi
          then some (0, r)
          else o >>= λ r'. some (
            u32 (r.input_cur + 4 - r.input_start),
            record r' { input_cur = r.input_cur + 4; input_pc = u64 (r.input_pc + 4) },
          ))
        (increment_inpos-some filled low high)
      ∙ ap
          (λ (c : Bool).
            if c then some (0, r) else some (u32 (r.input_cur + 4 - r.input_start), grown))
          e

  -- Reading appends the instruction at the input to the queue.
  pub queue-grown : HasRoom r → queue grown ≡ queue r ++ (some (next_input r) ∷ [])
  unfolding queue
  queue-grown (low, (room, high)) =
      let count = r.inpos - r.outpos in
      let longer : r.inpos + 1 - r.outpos ≡ suc count = omega arith in
      let fresh : (r.inpos % max_input_insn_count == r.inpos % max_input_insn_count) ≡ true =
        ground arith in
      rw longer (
        slots_from-append grown.slots r.outpos count r.inpos (omega arith)
        ∙ rw
            (
              fresh,
              slots_from-outside r.slots (some (next_input r)) r.outpos count r.inpos (omega arith)
                  (omega arith),
            )
            refl)

  -- Before the end of input, and while fewer than 100 instructions wait and the counter does not
  -- wrap around, read_one comes back, keeps the ring in order and appends the instruction at the
  -- input to the queue that the ring stands for.
  pub queue-read_one :
      r.eoi ≡ false
      → HasRoom r
      → (n : ℕ) × ((r' : Relocator) × ((read_one r ≡ some (n, r'))
            × (IsRing r' × (queue r' ≡ queue r ++ (some (next_input r) ∷ [])))))
  queue-read_one e (low, (room, high)) = (
    u32 (r.input_cur + 4 - r.input_start),
    (
      grown,
      (
        read_one-grown e low high,
        ((omega arith, (omega arith, high)), queue-grown (low, (room, high))),
      ),
    ),
  )

  -- While an instruction waits in a ring in order, skip_one comes back, keeps the ring in order and
  -- drops the head of the queue, which is the instruction that peek_next_write_insn shows.
  pub queue-skip_one :
      IsRing r
      → r.outpos < r.inpos
      → (r' : Relocator) × ((skip_one r ≡ some r')
          × (IsRing r' × (queue r ≡ peek_next_write_insn r ∷ queue r')))
  unfolding queue slots_from skip_one increment_outpos peek_next_write_insn
  queue-skip_one (low, (room, high)) more =
      let small : u32 (r.outpos + 1) ≡ r.outpos + 1 = omega arith in
      let ordered : leb (r.outpos + 1) r.inpos ≡ true = ground arith in
      let waiting : (r.outpos == r.inpos) ≡ false = ground arith in
      let count : r.inpos - r.outpos ≡ suc (r.inpos - (r.outpos + 1)) = omega arith in
      (
        record r { outpos = r.outpos + 1 },
        (rw (small, ordered) refl, ((omega arith, (omega arith, high)), rw (count, waiting) refl)),
      )
