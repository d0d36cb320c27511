-- ===== src/Interceptor/Consistent/Flushing.antt =====
-- hoox_interceptor_flush: what a pass leaves, and what the flush reports.
use hoox.Prelude.{
  ℕ, ◌++◌, ◌≡◌, refl, ap, ◌∙◌, ◌==◌, Bool, true, false, not, ◌&&◌, Option, some, List, [], ◌∷◌,
  arith, if_each, ◌>>=◌,
}
use hoox.Interceptor.{
  DestroyTask, Transaction, Interceptor, Platform, inc32, dec32, positive, commit_code,
}
use hoox.Interceptor.Threads.{ignore_current_thread, unignore_current_thread}
use hoox.Interceptor.Commit.{transaction_begin, transaction_end, commit, after_write, is_nil}
use hoox.Interceptor.Commit.Updates.{write_pages_lem}
use hoox.Interceptor.Commit.Draining.{IsStable, keep_if, in_use, commit-waits}
use hoox.Interceptor.Flush.{begin_transaction, pass, no_task, flush}
use hoox.Interceptor.Consistent.Reached.{Reached, Reached-IsConsistent, Reached-IsMarked}
use hoox.Interceptor.Consistent.{Consistent, IsConsistent}
use hoox.Interceptor.Consistent.Operations.{IsReliable}

-- What is left is what is in use.
abbrev Waiting : Interceptor → Option Interceptor → Type 0
Waiting i o =
    (j : Interceptor) × (o ≡ some j)
    × (j.current_transaction.pending_destroy_tasks
        ≡ keep_if (in_use i.heap) i.current_transaction.pending_destroy_tasks)

commit-Waiting :
    (plat : Platform) (me : ℕ) (i : Interceptor) (t : Transaction) (k : Interceptor)
    → IsReliable plat
    → IsStable plat
    → Consistent k.function_by_address k.heap k.next_ctx t.pending_update_tasks
    → (j : Interceptor) × ((commit plat t k >>= λ c. some (unignore_current_thread c me)) ≡ some j)
      × (j.current_transaction.pending_destroy_tasks
          ≡ keep_if (in_use k.heap) t.pending_destroy_tasks)
unfolding commit unignore_current_thread
commit-Waiting plat me i t k sure stable h =
    let (s, runs, ready, same) =
      write_pages_lem plat t (k.heap, k.log) sure.patches h.distinct h.ready in
    (
      unignore_current_thread (after_write plat t k s) me,
      ap
          (λ m.
            (m >>= λ w. some (after_write plat t k w)) >>= λ c. some (unignore_current_thread c me))
          runs,
      commit-waits plat t k s stable same,
    )

nil_left {ℓ} : {A : Type ℓ} (xs : List A) (b : Bool) → (is_nil xs && b) ≡ true → xs ≡ []
unfolding is_nil
nil_left [] b h = refl
nil_left (x ∷ xs) b h = cc

keep_if-nil :
    (p : DestroyTask → Bool) (tasks : List DestroyTask) → tasks ≡ [] → tasks ≡ keep_if p tasks
unfolding keep_if
keep_if-nil p [] h = refl
keep_if-nil p (task ∷ tasks) h = cc

-- The pass outside of a transaction: what is free is gone, what is in use waits.
pub pass_lem :
    (plat : Platform) (me : ℕ) (i : Interceptor)
    → IsReliable plat
    → IsStable plat
    → IsConsistent i
    → i.current_transaction.level ≡ 0
    → (i.current_transaction.is_dirty ≡ false → i.current_transaction.pending_destroy_tasks ≡ [])
    → Waiting i (pass plat me i)
unfolding pass begin_transaction transaction_begin transaction_end ignore_current_thread
    unignore_current_thread
pass_lem plat me i sure stable h outside clean =
    let t = record i.current_transaction { level = dec32 (inc32 i.current_transaction.level) } in
    let j = record i { current_transaction = t } in
    let k = ignore_current_thread (record j { log = i.log ++ commit_code ∷ [] }) me in
    let quiet = record k { current_transaction = record t { is_dirty = false } } in
    if_each (Waiting i) (positive t.level) _ _ (λ inner. absurd (ground arith))
      (λ outer.
        if_each (Waiting i) (not t.is_dirty) _ _
          (λ not_dirty. (j, refl, keep_if-nil (in_use i.heap) _ (clean (ground arith))))
          (λ dirty.
            if_each (Waiting i) (is_nil t.pending_destroy_tasks && is_nil t.pending_update_tasks) _
              _
              (λ nil. (
                unignore_current_thread quiet me,
                refl,
                keep_if-nil (in_use i.heap) _
                    (nil_left t.pending_destroy_tasks (is_nil t.pending_update_tasks) nil),
              ))
              (λ some_tasks. commit-Waiting plat me i t k sure stable h)))

-- Outside of a transaction, in any state that attaching, detaching, replacing, reverting,
-- transactions, flushes, calls of instrumented functions and forks into the child lead to, where
-- pages can be patched and the backend leaves the interceptor's own fields alone and no slice in a
-- context that it refuses, and while no counter changes, hoox_interceptor_flush leaves exactly the
-- tasks whose trampoline is in use, in their order, and reports whether none is left.
pub flush_lem :
    (plat : Platform) (me : ℕ) (i : Interceptor)
    → IsReliable plat
    → IsStable plat
    → Reached plat i
    → i.current_transaction.level ≡ 0
    → let left = keep_if (in_use i.heap) i.current_transaction.pending_destroy_tasks in
      (j : Interceptor) × (flush plat me i ≡ some (j, no_task left))
      × (j.current_transaction.pending_destroy_tasks ≡ left)
unfolding flush
flush_lem plat me i sure stable r outside =
    let (j, runs, left) =
      pass_lem plat me i sure stable (Reached-IsConsistent sure r) outside (Reached-IsMarked r) in
    let waiting = keep_if (in_use i.heap) i.current_transaction.pending_destroy_tasks in
    (
      j,
      if_each (λ (o : Option (Interceptor × Bool)). o ≡ some (j, no_task waiting))
          (i.current_transaction.level == 0) _ _
          (λ zero_level.
            ap (λ o. o >>= λ z. some (z, no_task z.current_transaction.pending_destroy_tasks)) runs
            ∙ ap (λ tasks. some (j, no_task tasks)) left)
          (λ nested. absurd (ground arith)),
      left,
    )
