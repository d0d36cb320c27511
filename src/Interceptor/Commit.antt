-- ===== src/Interceptor/Commit.antt =====
-- Transactions, src/core/hooxinterceptor.c: hoox_interceptor_transaction_*, hoox_apply_updates,
-- hoox_interceptor_activate and _deactivate, not on Windows. The lock is held throughout; where the code lets go of
-- it to run a destroy task, the task is taken as one step.
pub mod Pending
pub mod Updates
pub mod Draining
use hoox.Prelude.{
  ℕ, ◌+◌, ◌-◌, ◌%◌, ◌^◌, ◌==◌, Bool, true, false, not, ◌&&◌, ◌||◌, Option, none, some, List, [],
  ◌∷◌, ◌++◌, leb, if◌then◌else◌, ◌>>=◌, map,
}
use hoox.Interceptor.{
  Interceptor, Transaction, FunctionContext, Heap, DestroyTask, DestroyNotify, UpdateTask,
  UpdateFunc, activate, deactivate, Event, commit_code, write_code, run_task, Platform, update,
  inc32, dec32, positive,
}
use hoox.Interceptor.Threads.{ignore_current_thread, unignore_current_thread}

unfoldable pub transaction_init : Transaction
transaction_init = record {
  is_dirty = false;
  level = 0;
  pending_destroy_tasks = [];
  pending_update_tasks = [];
}

unfoldable pub transaction_begin : Transaction → Transaction
transaction_begin t = record t { level = inc32 t.level }

unfoldable pub schedule_destroy : Transaction → ℕ → DestroyNotify → Transaction
schedule_destroy t c notify = record t {
  pending_destroy_tasks = t.pending_destroy_tasks ++ record { ctx = c; notify = notify } ∷ [];
}

-- hx_hash_table_lookup, _insert, and the array that an entry holds
unfoldable pub page_tasks : List (ℕ × List UpdateTask) → ℕ → Option (List UpdateTask)
page_tasks [] page = none
page_tasks ((p, tasks) ∷ pages) page = if p == page then some tasks else page_tasks pages page

unfoldable pub add_tasks :
    List (ℕ × List UpdateTask) → ℕ → List UpdateTask → List (ℕ × List UpdateTask)
add_tasks [] page new = (page, new) ∷ []
add_tasks ((p, tasks) ∷ pages) page new =
    if p == page then (p, tasks ++ new) ∷ pages else (p, tasks) ∷ add_tasks pages page new

-- hoox_page_address_from_pointer: the page size is a power of two
unfoldable pub page_address_from_pointer : Platform → ℕ → ℕ
page_address_from_pointer plat a = a - a % plat.page_size

unfoldable pub schedule_update :
    Platform → Transaction → ℕ → FunctionContext → UpdateFunc → Transaction
unfolding add_tasks page_address_from_pointer
schedule_update plat t c ctx func =
    let start_page = page_address_from_pointer plat ctx.function_address in
    let end_page =
      page_address_from_pointer plat (ctx.function_address + ctx.overwritten_prologue_len - 1) in
    let pages =
      add_tasks t.pending_update_tasks start_page (record { ctx = c; func = func } ∷ []) in
    record t {
      pending_update_tasks = if end_page == start_page then pages else add_tasks pages end_page [];
    }

-- hoox_page_address_compare is below 0: the difference as a signed word of 64 bits
unfoldable pub page_before : ℕ → ℕ → Bool
page_before a b = leb (2 ^ 63) ((a + 2 ^ 64 - b) % 2 ^ 64)

-- hx_ptr_array_sort
unfoldable pub insert_page : ℕ → List ℕ → List ℕ
insert_page a [] = a ∷ []
insert_page a (b ∷ pages) =
    let rest = b ∷ insert_page a pages in if page_before b a then rest else a ∷ b ∷ pages

unfoldable pub sort_pages : List ℕ → List ℕ
unfolding insert_page page_before
sort_pages [] = []
sort_pages (a ∷ pages) = insert_page a (sort_pages pages)

-- The state that a commit works on: the contexts, and what it asked for so far.
abbrev pub Working : Type 0
Working = Heap × List Event

-- hoox_interceptor_activate and _deactivate, with their assertions
unfoldable pub run_activate : ℕ → Working → Option Working
run_activate c (heap, log) =
    if (heap c).destroyed
    then some (heap, log)
    else if (heap c).activated
    then none
    else some
        (update heap c (record (heap c) { activated = true }), log ++ write_code c activate ∷ [])

unfoldable pub run_deactivate : ℕ → Working → Option Working
run_deactivate c (heap, log) =
    if (heap c).activated
    then some
        (update heap c (record (heap c) { activated = false }), log ++ write_code c deactivate ∷ [])
    else none

-- update->func
unfoldable pub run_func : UpdateFunc → ℕ → Working → Option Working
unfolding run_activate run_deactivate
run_func activate c s = run_activate c s
run_func deactivate c s = run_deactivate c s

unfoldable pub run_updates : List UpdateTask → Working → Option Working
unfolding run_func
run_updates [] s = some s
run_updates (u ∷ tasks) s = run_func u.func u.ctx s >>= run_updates tasks

-- hoox_apply_updates for each of the pages, in their order; also the loop where code is signed
unfoldable pub apply_updates : List (ℕ × List UpdateTask) → List ℕ → Working → Option Working
unfolding page_tasks run_updates
apply_updates pending [] s = some s
apply_updates pending (page ∷ pages) s = do
  tasks ← page_tasks pending page
  s' ← run_updates tasks s
  apply_updates pending pages s'

-- hx_queue_push_tail of a task whose trampoline is still in use
unfoldable pub requeue : Transaction → DestroyTask → Transaction
requeue t task = record t {
  is_dirty = true;
  pending_destroy_tasks = t.pending_destroy_tasks ++ task ∷ [];
}

-- The loop over the destroy tasks: what is still in use waits for the next transaction.
unfoldable pub drain :
    Platform → Heap → ℕ → List DestroyTask → Transaction → List Event → Transaction × List Event
unfolding requeue
drain plat heap k [] t log = (t, log)
drain plat heap k (task ∷ tasks) t log =
    let run = drain plat heap (k + 1) tasks t (log ++ run_task task ∷ []) in
    let wait = drain plat heap (k + 1) tasks (requeue t task) log in
    if plat.usage k task.ctx (heap task.ctx).trampoline_usage_counter == 0 then run else wait

unfoldable pub is_nil {ℓ} : {A : Type ℓ} → List A → Bool
is_nil [] = true
is_nil (x ∷ xs) = false

-- `none` is hx_abort, where the pages cannot be patched, or a failed assertion.
unfoldable pub write_pages : Platform → Transaction → Working → Option Working
unfolding sort_pages apply_updates
write_pages plat t s =
    let pages = sort_pages (map (λ p. p.0) t.pending_update_tasks) in
    do
      s' ← apply_updates t.pending_update_tasks pages s
      if plat.code_signing_required || plat.patch_code_pages pages then some s' else none

-- A transaction with changes: its tasks are taken out, and a fresh one is put in their place.
unfoldable pub after_write : Platform → Transaction → Interceptor → Working → Interceptor
unfolding drain transaction_init
after_write plat t i (heap, log) =
    let (t', log') = drain plat heap 0 t.pending_destroy_tasks transaction_init log in
    record i { current_transaction = t'; heap = heap; log = log' }

unfoldable pub commit : Platform → Transaction → Interceptor → Option Interceptor
unfolding write_pages after_write
commit plat t i = write_pages plat t (i.heap, i.log) >>= λ s. some (after_write plat t i s)

unfoldable pub transaction_end : Platform → ℕ → Interceptor → Option Interceptor
unfolding is_nil commit
transaction_end plat me i =
    let t = record i.current_transaction { level = dec32 i.current_transaction.level } in
    let j = record i { current_transaction = t } in
    if positive t.level
    then some j
    else if not t.is_dirty
    then some j
    else let k = ignore_current_thread (record j { log = i.log ++ commit_code ∷ [] }) me in
      let quiet = record k { current_transaction = record t { is_dirty = false } } in
      let done = commit plat t k >>= λ c. some (unignore_current_thread c me) in
      if is_nil t.pending_destroy_tasks && is_nil t.pending_update_tasks
      then some (unignore_current_thread quiet me)
      else done
