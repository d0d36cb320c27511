-- ===== src/Interceptor/Commit/Draining.antt =====
-- Which destroy tasks a commit runs, and which it leaves for the next one.
use hoox.Prelude.{
  ℕ, ◌+◌, ◌≡◌, ◌≢◌, refl, sym, ap, ◌∙◌, ◌==◌, inl, inr, Bool, not, List, [], ◌∷◌, ◌++◌, map,
  if◌then◌else◌, arith, Bool-cases, if_both, if_each, length,
}
use mathlib.Core.List.{Memᴰ, append_assoc, append-nil}
use mathlib.Core.List.Memᴰ
use hoox.Interceptor.Commit.Updates.{Patched}
use hoox.Interceptor.{
  FunctionContext, Heap, DestroyTask, perform_destroy, Event, run_task, Transaction, Interceptor,
  Platform,
}
use hoox.Interceptor.Commit.{Working, drain, requeue, after_write, transaction_init}

-- The counters do not change while a commit drains the queue.
abbrev pub IsStable : Platform → Type 0
IsStable plat = (k c v : ℕ) → plat.usage k c v ≡ v

abbrev pub is_free : Heap → DestroyTask → Bool
is_free heap task = (heap task.ctx).trampoline_usage_counter == 0

-- The tasks that satisfy a test, in order.
unfoldable pub keep_if : (DestroyTask → Bool) → List DestroyTask → List DestroyTask
keep_if p [] = []
keep_if p (task ∷ tasks) = if p task then task ∷ keep_if p tasks else keep_if p tasks

abbrev pub in_use : Heap → DestroyTask → Bool
in_use heap task = not (is_free heap task)

pub drain_lem :
    (plat : Platform) (heap : Heap) (k : ℕ) (tasks : List DestroyTask) (t : Transaction)
    (log : List Event)
    → IsStable plat
    → ((drain plat heap k tasks t log).0.pending_destroy_tasks
        ≡ t.pending_destroy_tasks ++ keep_if (in_use heap) tasks)
      × ((drain plat heap k tasks t log).1 ≡ log ++ map run_task (keep_if (is_free heap) tasks))
unfolding drain keep_if requeue
drain_lem plat heap k [] t log stable =
    (sym (append-nil t.pending_destroy_tasks), sym (append-nil log))
drain_lem plat heap k (task ∷ tasks) t log stable =
    let (p, q) = drain_lem plat heap (k + 1) tasks t (log ++ run_task task ∷ []) stable in
    let (p', q') = drain_lem plat heap (k + 1) tasks (requeue t task) log stable in
    let read = stable k task.ctx (heap task.ctx).trampoline_usage_counter in
    elim (Bool-cases (is_free heap task)) [
      | inl free ↦ rw (read, free) (p, q ∙ append_assoc log (run_task task ∷ []) _)
      | inr used ↦ rw (read, used) (p' ∙ append_assoc t.pending_destroy_tasks (task ∷ []) _, q')
    ]

-- The task that frees a context.
abbrev pub destroying : ℕ → DestroyTask
destroying c = record { ctx = c; notify = perform_destroy }

-- Whatever the counters do, the drain only adds to the queue and to the log.
drain-adds :
    (plat : Platform) (heap : Heap) (k : ℕ) (tasks : List DestroyTask) (t : Transaction)
    (log : List Event)
    → ((x : DestroyTask)
        → Memᴰ x t.pending_destroy_tasks
        → Memᴰ x (drain plat heap k tasks t log).0.pending_destroy_tasks)
      × ((e : Event) → Memᴰ e log → Memᴰ e (drain plat heap k tasks t log).1)
unfolding drain requeue
drain-adds plat heap k [] t log = (λ x at. at, λ e at. at)
drain-adds plat heap k (task ∷ tasks) t log =
    let (ran, ran_log) = drain-adds plat heap (k + 1) tasks t (log ++ run_task task ∷ []) in
    let (waits, waits_log) = drain-adds plat heap (k + 1) tasks (requeue t task) log in
    let P : Transaction × List Event → Type 0 = λ r.
      ((x : DestroyTask) → Memᴰ x t.pending_destroy_tasks → Memᴰ x r.0.pending_destroy_tasks)
      × ((e : Event) → Memᴰ e log → Memᴰ e r.1) in
    if_both P (plat.usage k task.ctx (heap task.ctx).trampoline_usage_counter == 0) _ _
      (ran, λ e at. ran_log e (Memᴰ.append_left (run_task task ∷ []) at))
      (λ x at. waits x (Memᴰ.append_left (task ∷ []) at), waits_log)

-- The drain comes to a task that it finds free, and runs it.
drain-runs :
    (plat : Platform) (heap : Heap) (k : ℕ) (before after : List DestroyTask) (y : DestroyTask)
    (t : Transaction) (log : List Event)
    → plat.usage (k + length before) y.ctx (heap y.ctx).trampoline_usage_counter ≡ 0
    → Memᴰ (run_task y) (drain plat heap k (before ++ y ∷ after) t log).1
unfolding drain
drain-runs plat heap k [] after y t log free =
    let (keeps, keeps_log) = drain-adds plat heap (k + 1) after t (log ++ run_task y ∷ []) in
    let ran = keeps_log (run_task y) (Memᴰ.append_right log (Memᴰ.head refl)) in
    let now : plat.usage k y.ctx (heap y.ctx).trampoline_usage_counter ≡ 0 = ground (arith, free) in
    if_each (λ (r : Transaction × List Event). Memᴰ (run_task y) r.1)
      (plat.usage k y.ctx (heap y.ctx).trampoline_usage_counter == 0) _ _ (λ is_free. ran)
      (λ used. absurd (ground arith))
drain-runs plat heap k (x ∷ before) after y t log free =
    let later : plat.usage (k + 1 + length before) y.ctx (heap y.ctx).trampoline_usage_counter ≡ 0 =
      ground (arith, free) in
    if_both (λ (r : Transaction × List Event). Memᴰ (run_task y) r.1)
      (plat.usage k x.ctx (heap x.ctx).trampoline_usage_counter == 0) _ _
      (drain-runs plat heap (k + 1) before after y t (log ++ run_task x ∷ []) later)
      (drain-runs plat heap (k + 1) before after y (requeue t x) log later)

-- When the drain reads a usage counter other than 0 at a task of a function, and 0 at a later task
-- that destroys the function's context, it frees the context while the first task, which points to
-- it, waits in the new queue: whatever tasks stand between and behind the two, and whatever the
-- drain reads at those.
pub drain_frees_early :
    (plat : Platform) (heap : Heap) (k : ℕ) (x : DestroyTask) (before after : List DestroyTask)
    (t : Transaction) (log : List Event)
    → plat.usage k x.ctx (heap x.ctx).trampoline_usage_counter ≢ 0
    → plat.usage (k + 1 + length before) x.ctx (heap x.ctx).trampoline_usage_counter ≡ 0
    → let (t', log') = drain plat heap k (x ∷ (before ++ destroying x.ctx ∷ after)) t log in
      Memᴰ x t'.pending_destroy_tasks × Memᴰ (run_task (destroying x.ctx)) log'
unfolding drain requeue
drain_frees_early plat heap k x before after t log used free =
    let rest = before ++ destroying x.ctx ∷ after in
    let (keeps, keeps_log) = drain-adds plat heap (k + 1) rest (requeue t x) log in
    let waits = keeps x (Memᴰ.append_right t.pending_destroy_tasks (Memᴰ.head refl)) in
    let ran = drain-runs plat heap (k + 1) before after (destroying x.ctx) (requeue t x) log free in
    if_each
      (λ (r : Transaction × List Event).
        Memᴰ x r.0.pending_destroy_tasks × Memᴰ (run_task (destroying x.ctx)) r.1)
      (plat.usage k x.ctx (heap x.ctx).trampoline_usage_counter == 0) _ _
      (λ is_free. absurd (ground arith)) (λ in_use. (waits, ran))

-- Heaps whose counters agree have the same tasks in use, and the same free ones.
SameCounters : Heap → Heap → Type 0
SameCounters h h' = (c : ℕ) → (h' c).trampoline_usage_counter ≡ (h c).trampoline_usage_counter

keep_if-in_use :
    (h h' : Heap) (tasks : List DestroyTask)
    → SameCounters h h'
    → keep_if (in_use h') tasks ≡ keep_if (in_use h) tasks
unfolding keep_if SameCounters
keep_if-in_use h h' [] same = refl
keep_if-in_use h h' (task ∷ tasks) same =
    ground (arith, same task.ctx, keep_if-in_use h h' tasks same)

-- After a commit, the tasks in use wait, in their order.
pub commit-waits :
    (plat : Platform) (t : Transaction) (i : Interceptor) (s : Working)
    → IsStable plat
    → Patched i.heap s.0
    → (after_write plat t i s).current_transaction.pending_destroy_tasks
      ≡ keep_if (in_use i.heap) t.pending_destroy_tasks
unfolding after_write transaction_init SameCounters
commit-waits plat t i (heap, log) stable same =
    (drain_lem plat heap 0 t.pending_destroy_tasks transaction_init log stable).0
    ∙ keep_if-in_use i.heap heap t.pending_destroy_tasks
        (λ c. ap (λ (ctx : FunctionContext). ctx.trampoline_usage_counter) (same c))
