-- ===== src/Interceptor/Consistent/Forking.antt =====
-- What a flush makes, in the child of a fork, of the functions that were detached in the parent.
use hoox.Prelude.{ℕ, ◌≡◌, refl, ap, ◌∙◌, true, inl, inr, some, List, [], ◌∷◌, arith}
use mathlib.Core.Path.{subst}
use hoox.Interceptor.{Transaction, DestroyTask, Heap, Interceptor, Platform}
use hoox.Interceptor.Invocation.Balance.{frames}
use hoox.Interceptor.Commit.Draining.{IsStable, keep_if, in_use}
use hoox.Interceptor.Flush.{flush, no_task}
use hoox.Interceptor.Fork.{recover_from_fork_in_child}
use hoox.Interceptor.Consistent.Recovered.{recover-Kept}
use hoox.Interceptor.Fork.Repaired.{Waits, recover_counts}
use hoox.Interceptor.Consistent.Operations.{IsReliable}
use hoox.Interceptor.Consistent.Reached.{Reached, later, recovering}
use hoox.Interceptor.Consistent.Flushing.{flush_lem}

keep_if-free :
    (heap : Heap) (tasks : List DestroyTask)
    → ((c : ℕ) → Waits c tasks → (heap c).trampoline_usage_counter ≡ 0)
    → keep_if (in_use heap) tasks ≡ []
unfolding keep_if
keep_if-free heap [] idle = refl
keep_if-free heap (task ∷ tasks) idle =
    ground
      (arith, idle task.ctx (inl refl), keep_if-free heap tasks (λ c waits. idle c (inr waits)))

-- In the child of a fork, outside of a transaction, from any state that attaching, detaching,
-- replacing, reverting, transactions, flushes, calls of instrumented functions and earlier forks
-- lead to, where pages can be patched and the backend leaves the interceptor's own fields alone and
-- no slice in a context that it refuses, no counter changes, and the thread that forked is in no
-- instrumented function, one hoox_interceptor_flush runs all destroy tasks, whatever the threads
-- that are gone were inside of, and in whatever order the interceptor destroys what it kept of
-- them.
pub fork_flushes :
    (plat : Platform) (contexts : List ℕ) (me : ℕ) (i : Interceptor)
    → IsReliable plat
    → IsStable plat
    → Reached plat i
    → i.current_transaction.level ≡ 0
    → (i.threads me).stack ≡ []
    → (j : Interceptor) × (flush plat me (recover_from_fork_in_child contexts me i)
        ≡ some (j, true))
      × (j.current_transaction.pending_destroy_tasks ≡ [])
unfolding no_task
fork_flushes plat contexts me i sure stable r outside outer =
    let child = recover_from_fork_in_child contexts me i in
    let (table, next, open_tx, heap) = recover-Kept contexts me i in
    let tasks = child.current_transaction.pending_destroy_tasks in
    let same : tasks ≡ i.current_transaction.pending_destroy_tasks =
      ap (λ (t : Transaction). t.pending_destroy_tasks) open_tx in
    let level : child.current_transaction.level ≡ 0 =
      ap (λ (t : Transaction). t.level) open_tx ∙ outside in
    let (j, runs, left) =
      flush_lem plat me child sure stable (later me r (recovering contexts)) level in
    let idle : (c : ℕ) → Waits c tasks → (child.heap c).trampoline_usage_counter ≡ 0 = λ c waits.
      ground (
        arith,
        recover_counts contexts me i c (inr (inl (subst (Waits c) same waits))),
        ap (frames c) outer,
      ) in
    let gone = keep_if-free child.heap tasks idle in
    (j, runs ∙ ap (λ tasks. some (j, no_task tasks)) gone, left ∙ gone)
