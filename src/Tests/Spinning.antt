-- ===== src/Tests/Spinning.antt =====
-- The spinlock with one thread that holds it and one that waits.
use hoox.Prelude.{ℕ, ◌≡◌, refl, true}
use hoox.Spinlock.{
  acquiring, holding, outside, Spinlock, set_pc, init, Reach, here, next, call, win,
}
use hoox.Spinlock.Safety.{exclusive_and_live}

contended : Spinlock
contended = record {
  is_held = true;
  pc = set_pc (set_pc (set_pc (λ i. outside) 1 acquiring) 1 holding) 2 acquiring;
}

contended_reached : Reach init contended
unfolding contended
contended_reached = next (next (next here (call 1 refl)) (win 1 refl refl)) (call 2 refl)

exclusive_and_live_example :
    ((i j : ℕ) → contended.pc i ≡ holding → contended.pc j ≡ holding → i ≡ j)
    × ((i : ℕ)
        → contended.pc i ≡ acquiring
        → (t : Spinlock) × Reach contended t × (t.pc i ≡ holding))
exclusive_and_live_example = exclusive_and_live contended_reached
