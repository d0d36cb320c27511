-- ===== src/Arm64/Writer/Flush.antt =====
-- hoox_arm64_writer_flush: what waits behind it, and what a failure leaves.
use hoox.Prelude.{
  ℕ, ◌≡◌, refl, ap, ◌⊎◌, inl, inr, Bool, true, false, List, [], none, some, arith, Bool-cases,
}
use hoox.Arm64.Writer.{Writer, LabelRef, reset, reset_refs}
use hoox.Arm64.Writer.Commit.{try_commit_label_refs, commit_literals}
use hoox.Arm64.Writer.Emit.{flush}

-- No reference waits: the array is not allocated or empty.
abbrev pub NothingWaits : Writer → Type 0
NothingWaits w =
    ((w.label_refs ≡ none) ⊎ (w.label_refs ≡ some []))
    × ((w.literal_refs ≡ none) ⊎ (w.literal_refs ≡ some []))

NothingWaits-reset_refs : (w : Writer) → NothingWaits (reset_refs w)
unfolding reset_refs
NothingWaits-reset_refs w = ground arith

NothingWaits-reset : (w : Writer) (address : ℕ) → NothingWaits (reset w address)
unfolding reset reset_refs
NothingWaits-reset w address = ground arith

commit_literals-empties :
    (w : Writer)
    → (((commit_literals w).literal_refs ≡ none) ⊎ ((commit_literals w).literal_refs ≡ some []))
      × ((commit_literals w).label_refs ≡ w.label_refs)
unfolding commit_literals
commit_literals-empties w = ground arith

try_commit-empties :
    (w : Writer)
    → (try_commit_label_refs w).0 ≡ true
    → ((try_commit_label_refs w).1.label_refs ≡ none)
      ⊎ ((try_commit_label_refs w).1.label_refs ≡ some [])
unfolding try_commit_label_refs
try_commit-empties w h = ground arith

-- After a flush, whether it resolved the labels or failed, no label reference and no literal
-- reference waits.
pub flush-NothingWaits : (w : Writer) → NothingWaits (flush w).1
unfolding flush
flush-NothingWaits w = elim (Bool-cases (try_commit_label_refs w).0) [
  | inl e ↦
      let v = (try_commit_label_refs w).1 in
      let (literals, labels) = commit_literals-empties v in
      rw (e, labels) (try_commit-empties w e, literals)
  | inr e ↦ rw e (NothingWaits-reset_refs (try_commit_label_refs w).1)
]

flush_unresolved :
    (w : Writer) {refs : List LabelRef}
    → w.label_refs ≡ some refs
    → w.label_defs ≡ none
    → flush w ≡ (false, reset_refs w)
unfolding flush try_commit_label_refs
flush_unresolved w e d = rw (flush, e, d) refl

-- Where label references are allocated and no label was ever put, a flush fails, and so does the
-- next one after a reset to any address, although nothing waits by then.
pub flush_fails_again :
    (w : Writer) (refs : List LabelRef) (address : ℕ)
    → w.label_refs ≡ some refs
    → w.label_defs ≡ none
    → ((flush w).0 ≡ false)
      × (NothingWaits (reset (flush w).1 address) × ((flush (reset (flush w).1 address)).0 ≡ false))
unfolding reset reset_refs
flush_fails_again w refs address e d =
    let failed = flush_unresolved w e d in
    let stale : (reset (reset_refs w) address).label_refs ≡ some [] = rw e refl in
    let undefined : (reset (reset_refs w) address).label_defs ≡ none = rw d refl in
    rw failed (
      refl,
      (
        NothingWaits-reset (reset_refs w) address,
        ap (λ (p : Bool × Writer). p.0)
            (flush_unresolved (reset (reset_refs w) address) stale undefined),
      ),
    )
