-- ===== src/Interceptor/Consistent/Recovered.antt =====
-- The recovery from a fork changes counters and threads, and nothing that the table and the updates
-- depend on.
use hoox.Prelude.{ℕ, refl, ◌==◌, List, [], ◌∷◌, arith, if_both}
use hoox.Interceptor.{Heap, DestroyTask, StackEntry, Interceptor}
use hoox.Interceptor.Consistent.Calls.{Counted, Counted-trans, Kept, Kept-trans, release-Counted}
use hoox.Interceptor.Stack.{release_trampoline, release_frames}
use hoox.Interceptor.Fork.{
  reset_usage, increment_usage, reset_table, reset_tasks, reset_frames, count_frames,
  repair_usage_counters_after_fork, destroy_thread_context, prune_thread_contexts_after_fork,
  recover_from_fork_in_child,
}

reset-Counted : (heap : Heap) (c : ℕ) → Counted heap (reset_usage heap c)
unfolding reset_usage
reset-Counted heap c x = ground arith

increment-Counted : (heap : Heap) (c : ℕ) → Counted heap (increment_usage heap c)
unfolding increment_usage
increment-Counted heap c x = ground arith

reset_table-Counted : (heap : Heap) (table : List (ℕ × ℕ)) → Counted heap (reset_table heap table)
unfolding reset_table
reset_table-Counted heap [] = λ x. refl
reset_table-Counted heap ((a, c) ∷ table) =
    Counted-trans heap (reset_usage heap c) (reset_table (reset_usage heap c) table)
      (reset-Counted heap c) (reset_table-Counted (reset_usage heap c) table)

reset_tasks-Counted :
    (heap : Heap) (tasks : List DestroyTask) → Counted heap (reset_tasks heap tasks)
unfolding reset_tasks
reset_tasks-Counted heap [] = λ x. refl
reset_tasks-Counted heap (task ∷ tasks) =
    Counted-trans heap (reset_usage heap task.ctx) (reset_tasks (reset_usage heap task.ctx) tasks)
      (reset-Counted heap task.ctx) (reset_tasks-Counted (reset_usage heap task.ctx) tasks)

reset_frames-Counted :
    (heap : Heap) (stack : List StackEntry) → Counted heap (reset_frames heap stack)
unfolding reset_frames
reset_frames-Counted heap [] = λ x. refl
reset_frames-Counted heap (e ∷ below) =
    Counted-trans heap (reset_frames heap below)
      (reset_usage (reset_frames heap below) e.function_ctx) (reset_frames-Counted heap below)
      (reset-Counted (reset_frames heap below) e.function_ctx)

count_frames-Counted :
    (heap : Heap) (stack : List StackEntry) → Counted heap (count_frames heap stack)
unfolding count_frames
count_frames-Counted heap [] = λ x. refl
count_frames-Counted heap (e ∷ below) =
    Counted-trans heap (count_frames heap below)
      (increment_usage (count_frames heap below) e.function_ctx) (count_frames-Counted heap below)
      (increment-Counted (count_frames heap below) e.function_ctx)

release_frames-Counted :
    (heap : Heap) (stack : List StackEntry) → Counted heap (release_frames heap stack)
unfolding release_frames
release_frames-Counted heap [] = λ x. refl
release_frames-Counted heap (e ∷ below) =
    Counted-trans heap (release_frames heap below)
      (release_trampoline (release_frames heap below) e) (release_frames-Counted heap below)
      (release-Counted (release_frames heap below) e)

destroy-Kept : (i : Interceptor) (n : ℕ) → Kept i (destroy_thread_context i n)
unfolding destroy_thread_context
destroy-Kept i n = (refl, refl, refl, release_frames-Counted i.heap (i.threads n).stack)

prune-Kept :
    (contexts : List ℕ) (me : ℕ) (i : Interceptor)
    → Kept i (prune_thread_contexts_after_fork contexts i me)
unfolding prune_thread_contexts_after_fork
prune-Kept [] me i = (refl, refl, refl, λ x. refl)
prune-Kept (n ∷ contexts) me i =
    let j = destroy_thread_context i n in
    if_both (λ j. Kept i (prune_thread_contexts_after_fork contexts j me)) (n == me) i j
      (prune-Kept contexts me i)
      (Kept-trans i j (prune_thread_contexts_after_fork contexts j me) (destroy-Kept i n)
        (prune-Kept contexts me j))

repair-Kept :
    (i : Interceptor) (stack : List StackEntry) → Kept i (repair_usage_counters_after_fork i stack)
unfolding repair_usage_counters_after_fork
repair-Kept i stack =
    let tasks = i.current_transaction.pending_destroy_tasks in
    let listed = reset_table i.heap i.function_by_address in
    let waiting = reset_tasks listed tasks in
    let left = reset_frames waiting stack in
    (
      refl,
      refl,
      refl,
      Counted-trans i.heap left (count_frames left stack)
          (Counted-trans i.heap waiting left
            (Counted-trans i.heap listed waiting (reset_table-Counted i.heap i.function_by_address)
              (reset_tasks-Counted listed tasks))
            (reset_frames-Counted waiting stack))
          (count_frames-Counted left stack),
    )

pub recover-Kept :
    (contexts : List ℕ) (me : ℕ) (i : Interceptor)
    → Kept i (recover_from_fork_in_child contexts me i)
unfolding recover_from_fork_in_child
recover-Kept contexts me i =
    let k = prune_thread_contexts_after_fork contexts i me in
    let stack = (i.threads me).stack in
    Kept-trans i k (repair_usage_counters_after_fork k stack) (prune-Kept contexts me i)
      (repair-Kept k stack)
