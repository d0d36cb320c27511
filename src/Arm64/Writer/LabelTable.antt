-- ===== src/Arm64/Writer/LabelTable.antt =====
-- The label table of the writer: what put_label enters and what a reference finds.
use hoox.Prelude.{
  ℕ, ◌≡◌, ◌≢◌, ◌↔◌, inl, inr, true, List, [], ◌∷◌, none, some, arith, ◌==◌, if◌then◌else◌,
  Option-cases,
}
use hoox.Arm64.Writer.{Writer, lookup_label, insert_label, put_label}

lookup_label-insert_label :
    (id v : ℕ) (defs : List (ℕ × ℕ)) → lookup_label id (insert_label id v defs) ≡ v
unfolding lookup_label insert_label
lookup_label-insert_label id v [] = ground arith
lookup_label-insert_label id v ((k, u) ∷ defs) = ground (arith, lookup_label-insert_label id v defs)

lookup_label-insert_label_other :
    (id v other : ℕ) (defs : List (ℕ × ℕ))
    → other ≢ id
    → lookup_label other (insert_label id v defs) ≡ lookup_label other defs
unfolding lookup_label insert_label
lookup_label-insert_label_other id v other [] h = ground arith
lookup_label-insert_label_other id v other ((k, u) ∷ defs) h =
    ground (arith, lookup_label-insert_label_other id v other defs)

-- The address of a label, 0 where it is not defined.
abbrev pub label_of : Writer → ℕ → ℕ
label_of w id = elim w.label_defs [ none ↦ 0 | some defs ↦ lookup_label id defs ]

-- put_label accepts a label exactly where it is not defined, and then the label stands for the
-- place that is written to next; a label that is defined keeps its place, and in both cases so does
-- every other label.
pub put_label_lem :
    (w : Writer) (id : ℕ)
    → let done = put_label w id in
      ((done.0 ≡ true) ↔ (label_of w id ≡ 0))
      × ((label_of done.1 id ≡ (if label_of w id == 0 then w.code else label_of w id))
          × ((other : ℕ) → other ≢ id → label_of done.1 other ≡ label_of w other))
unfolding put_label lookup_label insert_label
put_label_lem w id = elim (Option-cases w.label_defs) [
  | inl e ↦ (ground arith, (ground arith, λ other h. ground arith))
  | inr (defs, e) ↦ (
    ground arith,
    (
      ground (arith, lookup_label-insert_label id w.code defs),
      λ other h. ground (arith, lookup_label-insert_label_other id w.code other defs h),
    ),
  )
]
