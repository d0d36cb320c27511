-- ===== src/Interceptor/Consistent.antt =====
-- What holds of the table of functions, the contexts and the updates that wait, between any two
-- operations of src/core/hooxinterceptor.c.
pub mod Table
pub mod Parts
pub mod Ending
pub mod Operations
pub mod Replacing
pub mod Detaching
pub mod Attaching
pub mod Marked
pub mod Calls
pub mod Recovered
pub mod Reached
pub mod Settled
pub mod Flushing
pub mod Forking
use hoox.Prelude.{ℕ, ◌≤◌, ◌≡◌, Bool, true, false, Option, none, some, List, [], ◌∷◌, length}
use hoox.Interceptor.{
  FunctionContext, Heap, UpdateTask, activate, deactivate, Interceptor, max_listeners_per_function,
}
use hoox.Interceptor.Instrument.{lookup}
use hoox.Interceptor.Commit.Pending.{pending_count, Distinct}
use hoox.Interceptor.Commit.Updates.{Ready}

-- No address has two entries.
abbrev pub Unique : List (ℕ × ℕ) → Type 0
Unique [] = Unit {0}
Unique ((a, c) ∷ table) = (lookup table a ≡ none) × Unique table

-- The table lists the contexts that are not destroyed, each under its function; what waits for a
-- context brings its patch in line with that; no array of listeners is too long.
pub record Consistent (table : List (ℕ × ℕ)) (heap : Heap) (next : ℕ)
    (pending : List (ℕ × List UpdateTask)) : Type 0 where
  pub ready :
      (c : ℕ)
      → Ready (heap c) (pending_count activate c pending) (pending_count deactivate c pending)
  pub distinct : Distinct pending
  pub unique : Unique table
  pub listed :
      (a c : ℕ)
      → lookup table a ≡ some c
      → ((heap c).destroyed ≡ false) × ((heap c).function_address ≡ a)
  pub known : (c : ℕ) → (heap c).destroyed ≡ false → lookup table (heap c).function_address ≡ some c
  pub unused :
      (c : ℕ)
      → next ≤ c
      → ((heap c).destroyed ≡ true)
        × ((heap c).activated ≡ false)
        × (pending_count activate c pending ≡ 0)
        × (pending_count deactivate c pending ≡ 0)
  pub bounded : (c : ℕ) → length (heap c).listener_entries ≤ max_listeners_per_function

abbrev pub IsConsistent : Interceptor → Type 0
IsConsistent i =
    Consistent i.function_by_address i.heap i.next_ctx i.current_transaction.pending_update_tasks
