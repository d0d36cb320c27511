-- ===== src/Spinlock.antt =====
-- The spinlock of src/core/hooxspinlock.c, between any number of threads, an atomic access at a time.
pub mod Safety
use hoox.Prelude.{ℕ, ◌≡◌, Bool, true, false, ◌==◌, if◌then◌else◌}

-- Where a thread stands: outside, in the loop of hoox_spinlock_acquire, or between its return and
-- the store of hoox_spinlock_release.
pub data Pc : Type 0 where
  outside acquiring holding : Pc

-- HooxSpinlockImpl.is_held, and the threads.
pub record Spinlock : Type 0 where
  pub is_held : Bool
  pub pc : ℕ → Pc

abbrev pub set_pc : (ℕ → Pc) → ℕ → Pc → ℕ → Pc
set_pc pc i p j = if j == i then p else pc j

-- hoox_spinlock_init
abbrev pub init : Spinlock
init = record { is_held = false; pc = λ i. outside }

-- The compare-exchange fails where the lock is held, and the loop goes on; it wins where it is not.
pub data Step (s : Spinlock) : Spinlock → Type 0 where
  call :
      (i : ℕ)
      → s.pc i ≡ outside
      → Step s (record { is_held = s.is_held; pc = set_pc s.pc i acquiring })
  miss : (i : ℕ) → s.pc i ≡ acquiring → s.is_held ≡ true → Step s s
  win :
      (i : ℕ)
      → s.pc i ≡ acquiring
      → s.is_held ≡ false
      → Step s (record { is_held = true; pc = set_pc s.pc i holding })
  release :
      (i : ℕ) → s.pc i ≡ holding → Step s (record { is_held = false; pc = set_pc s.pc i outside })

pub data Reach (s : Spinlock) : Spinlock → Type 0 where
  here : Reach s s
  next : {t u : Spinlock} → Reach s t → Step t u → Reach s u
