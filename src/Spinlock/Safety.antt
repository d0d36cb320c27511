-- ===== src/Spinlock/Safety.antt =====
-- One thread at most holds the spinlock, and a thread that waits for it is never stuck.
use hoox.Prelude.{ℕ, ◌≡◌, refl, inl, inr, true, false, arith, Bool-cases}
use hoox.Spinlock.{
  outside, acquiring, holding, Spinlock, set_pc, init, Step, call, miss, win, release, Reach, here,
  next,
}

record Inv (s : Spinlock) : Type 0 where
  held : (i : ℕ) → s.pc i ≡ holding → s.is_held ≡ true
  single : (i j : ℕ) → s.pc i ≡ holding → s.pc j ≡ holding → i ≡ j
  owned : s.is_held ≡ true → (i : ℕ) × (s.pc i ≡ holding)

init-Inv : Inv init
init-Inv = record { held = λ i h. cc; single = λ i j h k. cc; owned = λ h. cc }

Step-Inv : {s t : Spinlock} → Step s t → Inv s → Inv t
Step-Inv {s} (call i at) v = record {
  held = λ j h. ground (arith, v.held j);
  single = λ j k h h'. ground (arith, v.single j k);
  owned = λ h. let (k, owner) = v.owned h in (k, ground arith);
}
Step-Inv (miss i at h) v = v
Step-Inv (win i at free) v = record {
  held = λ j h. refl;
  single = λ j k h h'. ground (arith, v.held j, v.held k);
  owned = λ h. (i, ground arith);
}
Step-Inv (release i at) v = record {
  held = λ j h. ground (arith, v.single i j);
  single = λ j k h h'. ground (arith, v.single j k);
  owned = λ h. cc;
}

Reach-Inv : {s : Spinlock} → Reach init s → Inv s
Reach-Inv here = init-Inv
Reach-Inv (next r st) = Step-Inv st (Reach-Inv r)

-- In every state that any number of threads reach, at most one holds the spinlock, and from there
-- each thread that waits in hoox_spinlock_acquire can come to hold it.
pub exclusive_and_live :
    {s : Spinlock}
    → Reach init s
    → ((i j : ℕ) → s.pc i ≡ holding → s.pc j ≡ holding → i ≡ j)
      × ((i : ℕ) → s.pc i ≡ acquiring → (t : Spinlock) × Reach s t × (t.pc i ≡ holding))
exclusive_and_live {s} r =
    let v = Reach-Inv r in
    (
      v.single,
      λ i waits. elim (Bool-cases s.is_held) [
        | inr free ↦ (_, next here (win i waits free), ground arith)
        | inl held ↦
            let (k, owner) = v.owned held in
            let t : Spinlock = record { is_held = false; pc = set_pc s.pc k outside } in
            (_, next (next here (release k owner)) (win i (ground arith) refl), ground arith)
      ],
    )
