-- ===== src/Interceptor/Consistent/Ending.antt =====
-- The end of a transaction, hoox_interceptor_transaction_end: it keeps the interceptor consistent,
-- and the end of the outermost one brings the patches in line with the table.
use hoox.Prelude.{
  ◌≡◌, refl, sym, ap, ℕ, ◌+◌, ◌++◌, ◌==◌, ◌∙◌, Bool, true, false, not, ◌&&◌, Option, some, List, [],
  ◌∷◌, arith, if_both, if_each, ◌>>=◌,
}
use mathlib.Core.Path.{subst}
use hoox.Interceptor.{
  FunctionContext, Heap, Event, run_task, commit_code, DestroyTask, Transaction, Interceptor,
  Platform, dec32, positive,
}
use hoox.Interceptor.Threads.{ignore_current_thread, unignore_current_thread}
use hoox.Interceptor.Commit.{
  drain, transaction_init, commit, transaction_end, is_nil, requeue, after_write, Working,
}
use hoox.Interceptor.Commit.Updates.{write_pages_lem}
use hoox.Interceptor.Consistent.{Consistent, IsConsistent}
use hoox.Interceptor.Consistent.Parts.{Patched-Consistent}

-- No update waits.
abbrev pub IsSettled : Interceptor → Type 0
IsSettled i = i.current_transaction.pending_update_tasks ≡ []

-- An operation on the interceptor that comes back, keeps it consistent, and has what is asked.
abbrev pub Answers {ℓ} : Option Interceptor → (Interceptor → Type ℓ) → Type ℓ
Answers result P = (j : Interceptor) × (result ≡ some j) × IsConsistent j × P j

pub drain-updates :
    (plat : Platform) (heap : Heap) (k : ℕ) (tasks : List DestroyTask) (t : Transaction)
    (log : List Event)
    → (drain plat heap k tasks t log).0.pending_update_tasks ≡ t.pending_update_tasks
unfolding drain requeue
drain-updates plat heap k [] t log = refl
drain-updates plat heap k (task ∷ tasks) t log =
    if_both (λ (r : Transaction × List Event). r.0.pending_update_tasks ≡ t.pending_update_tasks)
      (plat.usage k task.ctx (heap task.ctx).trampoline_usage_counter == 0) _ _
      (drain-updates plat heap (k + 1) tasks t (log ++ run_task task ∷ []))
      (drain-updates plat heap (k + 1) tasks (requeue t task) log)

after_write-IsConsistent :
    (plat : Platform) (t : Transaction) (i : Interceptor) (s : Working)
    → Consistent i.function_by_address s.0 i.next_ctx []
    → IsConsistent (after_write plat t i s)
      × IsSettled (after_write plat t i s)
      × ((after_write plat t i s).function_by_address ≡ i.function_by_address)
      × ((after_write plat t i s).heap ≡ s.0)
unfolding after_write transaction_init
after_write-IsConsistent plat t i (heap, log) h =
    let none_left = drain-updates plat heap 0 t.pending_destroy_tasks transaction_init log in
    (
      subst (λ p. Consistent i.function_by_address heap i.next_ctx p) (sym none_left) h,
      none_left,
      refl,
      refl,
    )

commit_lem :
    (plat : Platform) (t : Transaction) (i : Interceptor)
    → ((pages : List ℕ) → plat.patch_code_pages pages ≡ true)
    → Consistent i.function_by_address i.heap i.next_ctx t.pending_update_tasks
    → Answers (commit plat t i) (λ j.
      IsSettled j
      × (j.function_by_address ≡ i.function_by_address)
      × ((x : ℕ) → (j.heap x).listener_entries ≡ (i.heap x).listener_entries))
unfolding commit
commit_lem plat t i patches h =
    let (s, runs, ready, same) =
      write_pages_lem plat t (i.heap, i.log) patches h.distinct h.ready in
    let table = i.function_by_address in
    let (kept, settled, listing, written) =
      after_write-IsConsistent plat t i s
        (Patched-Consistent table i.heap s.0 i.next_ctx t.pending_update_tasks ready same h) in
    (
      after_write plat t i s,
      ap (λ m. m >>= λ w. some (after_write plat t i w)) runs,
      kept,
      (
        settled,
        listing,
        λ x.
            ap (λ (w : Heap). (w x).listener_entries) written
            ∙ ap (λ (ctx : FunctionContext). ctx.listener_entries) (same x),
      ),
    )

-- What an ended transaction leaves: the table, and no update where it was the outermost one.
abbrev pub Ended : Interceptor → Interceptor → Type 0
Ended i j =
    (j.function_by_address ≡ i.function_by_address)
    × ((x : ℕ) → (j.heap x).listener_entries ≡ (i.heap x).listener_entries)
    × (positive (dec32 i.current_transaction.level) ≡ false
        → i.current_transaction.is_dirty ≡ true
        → IsSettled j)

nil_right {ℓ} : {A : Type ℓ} (b : Bool) (xs : List A) → (b && is_nil xs) ≡ true → xs ≡ []
unfolding is_nil
nil_right b [] h = refl
nil_right true (x ∷ xs) h = cc
nil_right false (x ∷ xs) h = cc

-- The end of any transaction, inner or outermost.
pub transaction_end-IsConsistent :
    (plat : Platform) (me : ℕ) (i : Interceptor)
    → ((pages : List ℕ) → plat.patch_code_pages pages ≡ true)
    → IsConsistent i
    → Answers (transaction_end plat me i) (Ended i)
unfolding transaction_end is_nil ignore_current_thread unignore_current_thread
transaction_end-IsConsistent plat me i patches h =
    let t = record i.current_transaction { level = dec32 i.current_transaction.level } in
    let j = record i { current_transaction = t } in
    let k = ignore_current_thread (record j { log = i.log ++ commit_code ∷ [] }) me in
    let quiet = record k { current_transaction = record t { is_dirty = false } } in
    let (c, runs, kept, (settled, listing, entries)) = commit_lem plat t k patches h in
    let P : Option Interceptor → Type 0 = λ o. Answers o (Ended i) in
    if_each P (positive t.level) _ _ (λ inner. (j, refl, h, (refl, λ x. refl, λ outer dirty. cc)))
      (λ outer.
        if_each P (not t.is_dirty) _ _
          (λ clean. (j, refl, h, (refl, λ x. refl, λ o dirty. ground arith)))
          (λ dirty.
            if_each P (is_nil t.pending_destroy_tasks && is_nil t.pending_update_tasks) _ _
              (λ nil. (
                unignore_current_thread quiet me,
                refl,
                h,
                (
                  refl,
                  λ x. refl,
                  λ o d. nil_right (is_nil t.pending_destroy_tasks) t.pending_update_tasks nil,
                ),
              ))
              (λ some_tasks. (
                unignore_current_thread c me,
                ap (λ o. o >>= λ z. some (unignore_current_thread z me)) runs,
                kept,
                (listing, entries, λ o d. settled),
              ))))
