-- ===== src/Arm64/Relocator/Verbatim.antt =====
-- Instructions that do not depend on where they stand are copied as they are.
use hoox.Prelude.{
  ℕ, ◌+◌, ◌%◌, ◌^◌, ◌≤◌, ◌<◌, ◌≡◌, refl, ap, ◌⊎◌, Bool, true, false, some, arith, ◌==◌, length,
}
use hoox.Memory.{load_le, store_le, bytes_le}
use hoox.Memory.Laws.{load-store_le, length-bytes_le}
use hoox.Arm64.Decoder.{Insn, InsnId, ldr, ldrsw, adr, adrp, b, bl, cbz, cbnz, tbz, tbnz}
use hoox.Arm64.Writer.{Writer}
use hoox.Arm64.Writer.Emit.{space_used, put_bytes, copy_bytes, put_instruction}
use hoox.Arm64.Writer.Flow.{IsQuiet, maybe_commit-quiet}
use hoox.Arm64.Relocator.{Relocator, max_input_insn_count, write_one}
use hoox.Arm64.Relocator.Rewrite.{rewrite}
use hoox.Arm64.Relocator.Ring.{IsRing}
use hoox.Arm64.Relocator.Writing.{write_one-full, output_of}

-- The operations that write_one rewrites.
unfoldable pub depends_on_pc : InsnId → Bool
depends_on_pc ldr = true
depends_on_pc ldrsw = true
depends_on_pc adr = true
depends_on_pc adrp = true
depends_on_pc b = true
depends_on_pc bl = true
depends_on_pc cbz = true
depends_on_pc cbnz = true
depends_on_pc tbz = true
depends_on_pc tbnz = true
depends_on_pc _ = false

rewrite_of-leaves :
    (i : Insn) (w : Writer) (id : InsnId)
    → i.id ≡ id
    → depends_on_pc id ≡ false
    → rewrite i w ≡ some (false, w)
unfolding rewrite depends_on_pc
rewrite_of-leaves i w ldr e h = absurd (ground arith)
rewrite_of-leaves i w ldrsw e h = absurd (ground arith)
rewrite_of-leaves i w adr e h = absurd (ground arith)
rewrite_of-leaves i w adrp e h = absurd (ground arith)
rewrite_of-leaves i w b e h = absurd (ground arith)
rewrite_of-leaves i w bl e h = absurd (ground arith)
rewrite_of-leaves i w cbz e h = absurd (ground arith)
rewrite_of-leaves i w cbnz e h = absurd (ground arith)
rewrite_of-leaves i w tbz e h = absurd (ground arith)
rewrite_of-leaves i w tbnz e h = absurd (ground arith)
rewrite_of-leaves i w _ e h = rw (rewrite, e) refl

copy_bytes-word :
    (w : Writer) (word : ℕ)
    → word < 2 ^ 32
    → load_le 4 (copy_bytes w (bytes_le 4 word)).mem w.code ≡ word
unfolding copy_bytes store_le
copy_bytes-word w word h = load-store_le 4 w.mem w.code word (omega arith)

copied :
    (w : Writer) (word : ℕ)
    → IsQuiet w
    → let v = copy_bytes w (bytes_le 4 word) in
      (v.earliest_literal_insn ≡ 0) ⊎ (space_used v ≤ 1048572)
unfolding copy_bytes
copied w word quiet = rw (length-bytes_le 4 word) quiet

-- A word that put_bytes copies reads back, where the literal pool stays closed.
put_bytes-word :
    (w : Writer) (word : ℕ)
    → word < 2 ^ 32
    → IsQuiet w
    → load_le 4 (put_bytes w (bytes_le 4 word)).1.mem w.code ≡ word
unfolding put_bytes
put_bytes-word w word h quiet =
    let whole : (length (bytes_le 4 word) % 4 == 0) ≡ true =
      ground (arith, length-bytes_le 4 word) in
    let quiet' =
      maybe_commit-quiet put_instruction (copy_bytes w (bytes_le 4 word)) (copied w word quiet) in
    rw (whole, quiet') (copy_bytes-word w word h)

put_bytes-code :
    (w : Writer) (word : ℕ) → IsQuiet w → (put_bytes w (bytes_le 4 word)).1.code ≡ w.code + 4
unfolding put_bytes copy_bytes
put_bytes-code w word quiet =
    let whole : (length (bytes_le 4 word) % 4 == 0) ≡ true =
      ground (arith, length-bytes_le 4 word) in
    let quiet' =
      maybe_commit-quiet put_instruction (copy_bytes w (bytes_le 4 word)) (copied w word quiet) in
    rw (whole, quiet') (ap (λ (n : ℕ). w.code + n) (length-bytes_le 4 word))

-- Where the literal pool stays closed, write_one copies an instruction that is none of the ten
-- operations it rewrites as it is: the output gets the same 32-bit word and moves 4 bytes on, and
-- the ring has one instruction fewer to write.
pub write_one-verbatim :
    (r : Relocator) (i : Insn)
    → IsRing r
    → r.outpos < r.inpos
    → r.slots (r.outpos % max_input_insn_count) ≡ some i
    → i.word < 2 ^ 32
    → depends_on_pc i.id ≡ false
    → IsQuiet r.output
    → (r' : Relocator) × ((write_one r ≡ some (true, r'))
        × ((load_le 4 r'.output.mem r.output.code ≡ i.word)
            × ((r'.output.code ≡ r.output.code + 4) × (r'.outpos ≡ r.outpos + 1))))
unfolding put_bytes
write_one-verbatim r i ring more e fits fixed quiet =
    let leaves = rewrite_of-leaves i r.output i.id refl fixed in
    (
      record r { outpos = r.outpos + 1; output = output_of i (false, r.output) },
      (
        write_one-full r ring i more e leaves,
        (put_bytes-word r.output i.word fits quiet, (put_bytes-code r.output i.word quiet, refl)),
      ),
    )
