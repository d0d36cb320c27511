-- ===== src/Interceptor/Flush.antt =====
-- Transactions of the caller, and the flushes, src/core/hooxinterceptor.c: hoox_interceptor_flush,
-- _flush_function and _flush_listener.
use hoox.Prelude.{
  ℕ, ◌==◌, Bool, true, false, not, ◌&&◌, Option, some, List, [], ◌∷◌, if◌then◌else◌, ◌>>=◌,
}
use hoox.Interceptor.Threads.{thread_context_new}
use hoox.Interceptor.{
  FunctionContext, Options, default_type, Interceptor, Listener, DestroyTask, DestroyNotify,
  unref_entries, unref_listener, perform_destroy, Platform,
}
use hoox.Interceptor.Commit.{transaction_init, transaction_begin, transaction_end}
use hoox.Interceptor.Instrument.{with_transaction, resolve}

unfoldable pub default_options : Options
default_options = record {
  scratch_register = 0;
  scenario = 0;
  relocation_policy = 0;
  write_redirect = 0;
  write_redirect_data = 0;
  redirect_space_hint = 0;
}

-- A pointer that no context was made at: nothing is listed there, and nothing to be undone.
unfoldable pub unallocated : FunctionContext
unallocated = record {
  function_address = 0;
  kind = default_type;
  destroyed = true;
  activated = false;
  has_on_leave_listener = false;
  has_unignorable_listener = false;
  trampoline_usage_counter = 0;
  overwritten_prologue_len = 0;
  on_invoke_trampoline = 0;
  on_leave_trampoline = 0;
  listener_entries = [];
  replacement_function = 0;
  replacement_data = 0;
  options = default_options;
}

-- hoox_interceptor_init, with threads that have not met the interceptor
unfoldable pub interceptor_init : Interceptor
unfolding transaction_init thread_context_new unallocated
interceptor_init = record {
  function_by_address = [];
  has_backend = false;
  options = record default_options { scenario = 1; relocation_policy = 1 };
  selected_thread_id = 0;
  current_transaction = transaction_init;
  heap = λ c. unallocated;
  next_ctx = 1;
  threads = λ n. thread_context_new;
  log = [];
}

unfoldable pub begin_transaction : Interceptor → Interceptor
unfolding with_transaction
begin_transaction i = with_transaction i (transaction_begin i.current_transaction)

unfoldable pub end_transaction : Platform → ℕ → Interceptor → Option Interceptor
end_transaction plat me i = transaction_end plat me i

-- The pass that the three flushes make where no transaction is open.
unfoldable pub pass : Platform → ℕ → Interceptor → Option Interceptor
unfolding begin_transaction
pass plat me i = transaction_end plat me (begin_transaction i)

unfoldable pub no_task : List DestroyTask → Bool
no_task [] = true
no_task (task ∷ tasks) = false

unfoldable pub flush : Platform → ℕ → Interceptor → Option (Interceptor × Bool)
unfolding pass no_task
flush plat me i =
    let flushed =
      pass plat me i >>= λ j. some (j, no_task j.current_transaction.pending_destroy_tasks) in
    if i.current_transaction.level == 0 then flushed else some (i, false)

is_task_of_function : Interceptor → ℕ → DestroyTask → Bool
is_task_of_function i target task = (i.heap task.ctx).function_address == target

is_task_of_listener : ℕ → DestroyNotify → Bool
is_task_of_listener l unref_entries = false
is_task_of_listener l (unref_listener m) = m == l
is_task_of_listener l perform_destroy = false

none_of : (DestroyTask → Bool) → List DestroyTask → Bool
none_of p [] = true
none_of p (task ∷ tasks) = not (p task) && none_of p tasks

unfoldable pub flush_function : ℕ → Platform → ℕ → Interceptor → ℕ → Option (Interceptor × Bool)
unfolding pass none_of is_task_of_function
flush_function fuel plat me i a =
    let flushed = do
      j ← pass plat me i
      target ← resolve fuel plat j a
      some (j, none_of (is_task_of_function j target) j.current_transaction.pending_destroy_tasks)
    in if i.current_transaction.level == 0 then flushed else some (i, false)

unfoldable pub flush_listener : Platform → ℕ → Interceptor → Listener → Option (Interceptor × Bool)
unfolding pass none_of is_task_of_listener
flush_listener plat me i l =
    let flushed = pass plat me i >>= λ j. some (
      j,
      none_of (λ task. is_task_of_listener l.instance_address task.notify)
          j.current_transaction.pending_destroy_tasks,
    ) in
    if i.current_transaction.level == 0 then flushed else some (i, false)
