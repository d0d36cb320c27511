-- ===== src/Interceptor/Fork/Repaired.antt =====
-- The counters after a fork, against the frames of the thread that is left.
use hoox.Prelude.{
  ℕ, ◌<◌, ◌%◌, ◌^◌, ◌≡◌, refl, sym, ap, ◌∙◌, ◌==◌, false, ◌⊎◌, inl, inr, some, List, [], ◌∷◌, arith,
  if_each,
}
use mathlib.Core.Path.{subst}
use hoox.Interceptor.{Heap, DestroyTask, StackEntry, Transaction, Interceptor}
use hoox.Interceptor.Instrument.{lookup}
use hoox.Interceptor.Invocation.Balance.{frames}
use hoox.Interceptor.Fork.{
  reset_usage, increment_usage, reset_table, reset_tasks, reset_frames, count_frames,
  repair_usage_counters_after_fork, destroy_thread_context, prune_thread_contexts_after_fork,
  recover_from_fork_in_child,
}

abbrev IsIdle : Heap → ℕ → Type 0
IsIdle heap c = (heap c).trampoline_usage_counter ≡ 0

-- A destroy task of the context waits.
abbrev pub Waits : ℕ → List DestroyTask → Type 0
Waits c [] = ⊥
Waits c (task ∷ tasks) = (task.ctx ≡ c) ⊎ Waits c tasks

reset_usage-IsIdle : (heap : Heap) (x c : ℕ) → IsIdle heap c → IsIdle (reset_usage heap x) c
unfolding reset_usage
reset_usage-IsIdle heap x c h = ground arith

reset_table-IsIdle :
    (heap : Heap) (table : List (ℕ × ℕ)) (c : ℕ) → IsIdle heap c → IsIdle (reset_table heap table) c
unfolding reset_table
reset_table-IsIdle heap [] c h = h
reset_table-IsIdle heap ((a, x) ∷ table) c h =
    reset_table-IsIdle (reset_usage heap x) table c (reset_usage-IsIdle heap x c h)

reset_usage-own : (heap : Heap) (c : ℕ) → IsIdle (reset_usage heap c) c
unfolding reset_usage
reset_usage-own heap c = ground arith

reset_table-listed :
    (heap : Heap) (table : List (ℕ × ℕ)) (a c : ℕ)
    → lookup table a ≡ some c
    → IsIdle (reset_table heap table) c
unfolding reset_table lookup
reset_table-listed heap [] a c at = cc
reset_table-listed heap ((b, x) ∷ table) a c at =
    let own = reset_table-IsIdle (reset_usage heap x) table x (reset_usage-own heap x) in
    ground (arith, reset_table-listed (reset_usage heap x) table a c, own)

reset_tasks-IsIdle :
    (heap : Heap) (tasks : List DestroyTask) (c : ℕ)
    → IsIdle heap c
    → IsIdle (reset_tasks heap tasks) c
unfolding reset_tasks
reset_tasks-IsIdle heap [] c h = h
reset_tasks-IsIdle heap (task ∷ tasks) c h =
    reset_tasks-IsIdle (reset_usage heap task.ctx) tasks c (reset_usage-IsIdle heap task.ctx c h)

reset_tasks-Waits :
    (heap : Heap) (tasks : List DestroyTask) (c : ℕ)
    → Waits c tasks
    → IsIdle (reset_tasks heap tasks) c
unfolding reset_tasks
reset_tasks-Waits heap [] c h = absurd h
reset_tasks-Waits heap (task ∷ tasks) c (inl same) =
    reset_tasks-IsIdle (reset_usage heap task.ctx) tasks c
      (ground (arith, reset_usage-own heap task.ctx))
reset_tasks-Waits heap (task ∷ tasks) c (inr h) =
    reset_tasks-Waits (reset_usage heap task.ctx) tasks c h

reset_frames-IsIdle :
    (heap : Heap) (stack : List StackEntry) (c : ℕ)
    → IsIdle heap c ⊎ (0 < frames c stack)
    → IsIdle (reset_frames heap stack) c
unfolding reset_frames reset_usage
reset_frames-IsIdle heap [] c h = ground arith
reset_frames-IsIdle heap (e ∷ below) c h = ground (arith, reset_frames-IsIdle heap below c)

count_frames-counts :
    (heap : Heap) (stack : List StackEntry) (c : ℕ)
    → IsIdle heap c
    → (count_frames heap stack c).trampoline_usage_counter ≡ frames c stack % 2 ^ 32
unfolding count_frames increment_usage
count_frames-counts heap [] c h = ground arith
count_frames-counts heap (e ∷ below) c h = ground (arith, count_frames-counts heap below c h)

-- Pruning leaves the table and the tasks alone, and the stack of the thread that is left.
abbrev Pruned : ℕ → Interceptor → Interceptor → Type 0
Pruned me i j =
    (j.function_by_address ≡ i.function_by_address)
    × (j.current_transaction ≡ i.current_transaction)
    × ((j.threads me).stack ≡ (i.threads me).stack)

destroy-Pruned :
    (me : ℕ) (i : Interceptor) (n : ℕ)
    → (n == me) ≡ false
    → Pruned me i (destroy_thread_context i n)
unfolding destroy_thread_context
destroy-Pruned me i n other = (refl, refl, ground arith)

prune-Pruned :
    (contexts : List ℕ) (me : ℕ) (i : Interceptor)
    → Pruned me i (prune_thread_contexts_after_fork contexts i me)
unfolding prune_thread_contexts_after_fork
prune-Pruned [] me i = (refl, refl, refl)
prune-Pruned (n ∷ contexts) me i =
    let P : Interceptor → Type 0 =
      λ j. Pruned me i (prune_thread_contexts_after_fork contexts j me) in
    if_each P (n == me) _ _ (λ self. prune-Pruned contexts me i)
      (λ other.
        let j = destroy_thread_context i n in
        let (table, tasks, stack) = destroy-Pruned me i n other in
        let (table', tasks', stack') = prune-Pruned contexts me j in
        (table' ∙ table, tasks' ∙ tasks, stack' ∙ stack))

-- A context that the table lists, that a destroy task waits for, or that the thread is inside of.
abbrev pub IsKnown : ℕ → Interceptor → ℕ → Type 0
IsKnown me i c =
    ((a : ℕ) × (lookup i.function_by_address a ≡ some c))
    ⊎ Waits c i.current_transaction.pending_destroy_tasks
    ⊎ (0 < frames c (i.threads me).stack)

-- After the recovery in the child of a fork, the usage counter of each context that the table
-- lists, that a destroy task waits for, or that the thread which forked has a frame of, is the
-- number of that thread's frames of it, as a word of 32 bits: whichever contexts of other threads
-- the interceptor destroys first, releasing their frames.
pub recover_counts :
    (contexts : List ℕ) (me : ℕ) (i : Interceptor) (c : ℕ)
    → IsKnown me i c
    → ((recover_from_fork_in_child contexts me i).heap c).trampoline_usage_counter
      ≡ frames c (i.threads me).stack % 2 ^ 32
unfolding recover_from_fork_in_child repair_usage_counters_after_fork
recover_counts contexts me i c known =
    let k = prune_thread_contexts_after_fork contexts i me in
    let (table, open_tx, own) = prune-Pruned contexts me i in
    let listed = reset_table k.heap k.function_by_address in
    let tasks = k.current_transaction.pending_destroy_tasks in
    let waiting = reset_tasks listed tasks in
    let stack = (i.threads me).stack in
    count_frames-counts (reset_frames waiting stack) stack c (
      reset_frames-IsIdle waiting stack c (elim known [
        | inl (a, at) ↦ inl (
            reset_tasks-IsIdle listed tasks c (
              reset_table-listed k.heap k.function_by_address a c
                (ap (λ t. lookup t a) table ∙ at)))
        | inr (inl waits) ↦ inl (
            reset_tasks-Waits listed tasks c
              (subst (λ (t : Transaction). Waits c t.pending_destroy_tasks) (sym open_tx) waits))
        | inr (inr inside) ↦ inr inside
      ]))
