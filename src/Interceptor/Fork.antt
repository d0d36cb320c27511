-- ===== src/Interceptor/Fork.antt =====
-- What a fork leaves in the child, src/core/hooxinterceptor.c:
-- _hoox_interceptor_recover_from_fork_in_child. The locks that it resets are not part of the state.
pub mod Repaired
use hoox.Prelude.{ℕ, ◌==◌, List, [], ◌∷◌, if◌then◌else◌}
use hoox.Interceptor.{Heap, DestroyTask, StackEntry, Interceptor, update, inc32}
use hoox.Interceptor.Threads.{thread_context_new}
use hoox.Interceptor.Stack.{release_frames}

unfoldable pub reset_usage : Heap → ℕ → Heap
reset_usage heap c = update heap c (record (heap c) { trampoline_usage_counter = 0 })

unfoldable pub increment_usage : Heap → ℕ → Heap
increment_usage heap c =
    update heap c
      (record (heap c) { trampoline_usage_counter = inc32 (heap c).trampoline_usage_counter })

-- The four loops of hoox_interceptor_repair_usage_counters_after_fork, by what they go through.
unfoldable pub reset_table : Heap → List (ℕ × ℕ) → Heap
unfolding reset_usage
reset_table heap [] = heap
reset_table heap ((a, c) ∷ table) = reset_table (reset_usage heap c) table

unfoldable pub reset_tasks : Heap → List DestroyTask → Heap
unfolding reset_usage
reset_tasks heap [] = heap
reset_tasks heap (task ∷ tasks) = reset_tasks (reset_usage heap task.ctx) tasks

-- The stack is listed from its top down, and these two go through it from its bottom up.
unfoldable pub reset_frames : Heap → List StackEntry → Heap
unfolding reset_usage
reset_frames heap [] = heap
reset_frames heap (e ∷ below) = reset_usage (reset_frames heap below) e.function_ctx

unfoldable pub count_frames : Heap → List StackEntry → Heap
unfolding increment_usage
count_frames heap [] = heap
count_frames heap (e ∷ below) = increment_usage (count_frames heap below) e.function_ctx

-- A thread that has not met the interceptor has no context, and its stack is empty here.
unfoldable pub repair_usage_counters_after_fork : Interceptor → List StackEntry → Interceptor
unfolding reset_table reset_tasks reset_frames count_frames
repair_usage_counters_after_fork i stack =
    let listed = reset_table i.heap i.function_by_address in
    let waiting = reset_tasks listed i.current_transaction.pending_destroy_tasks in
    record i { heap = count_frames (reset_frames waiting stack) stack }

-- hx_hash_table_iter_remove and interceptor_thread_context_destroy of one thread
unfoldable pub destroy_thread_context : Interceptor → ℕ → Interceptor
unfolding release_frames thread_context_new
destroy_thread_context i n = record i {
  heap = release_frames i.heap (i.threads n).stack;
  threads = update i.threads n thread_context_new;
}

-- The other threads are gone, and the interceptor destroys what it kept of them. `contexts` are the
-- threads in hoox_interceptor_thread_contexts, in the order in which the iterator comes to them.
unfoldable pub prune_thread_contexts_after_fork : List ℕ → Interceptor → ℕ → Interceptor
unfolding destroy_thread_context
prune_thread_contexts_after_fork [] i me = i
prune_thread_contexts_after_fork (n ∷ contexts) i me =
    prune_thread_contexts_after_fork contexts (if n == me then i else destroy_thread_context i n) me

-- hoox_interceptor_recover_from_fork with `in_child`
unfoldable pub recover_from_fork_in_child : List ℕ → ℕ → Interceptor → Interceptor
unfolding prune_thread_contexts_after_fork repair_usage_counters_after_fork
recover_from_fork_in_child contexts me i =
    repair_usage_counters_after_fork (prune_thread_contexts_after_fork contexts i me)
      (i.threads me).stack
