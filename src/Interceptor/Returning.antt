-- ===== src/Interceptor/Returning.antt =====
-- The return of an instrumented function, src/core/hooxinterceptor.c:
-- _hoox_function_context_end_invocation, from the on-leave trampoline, on the thread `me`, on AArch64
-- and not on Windows.
use hoox.Prelude.{
  ℕ, ◌+◌, ◌==◌, Bool, false, not, ◌&&◌, Option, none, some, List, [], ◌∷◌, ◌++◌, if◌then◌else◌,
}
use hoox.Interceptor.{
  Interceptor, StackEntry, ListenerEntry, call_on_leave, CpuContext, Platform, dec32,
}
use hoox.Interceptor.Stack.{peek_top, pop, reap_unwound_above}
use hoox.Interceptor.Threads.{set_thread}
use hoox.Interceptor.Invocation.{Calls, is_passed_over, add_usage, fixup_cpu_context, reap_thread}

-- What the trampoline returns to, and the registers.
pub record Left : Type 0 where
  pub interceptor : Interceptor
  pub next_hop : ℕ
  pub cpu : CpuContext

leave_one : Platform → Bool → ℕ → ListenerEntry → Calls → Calls
unfolding is_passed_over
leave_one plat only k e (cpu, err, log) =
    let (cpu', err') = plat.left e (cpu, err) in
    if is_passed_over only e
    then (cpu, err, log)
    else if e.listener.has_on_leave
    then (cpu', err', log ++ call_on_leave k e err ∷ [])
    else (cpu, err, log)

unfoldable pub leave_listeners : Platform → Bool → ℕ → List (Option ListenerEntry) → Calls → Calls
unfolding leave_one
leave_listeners plat only k [] s = s
leave_listeners plat only k (none ∷ slots) s = leave_listeners plat only (k + 1) slots s
leave_listeners plat only k (some e ∷ slots) s =
    leave_listeners plat only (k + 1) slots (leave_one plat only k e s)

error_on_leave : StackEntry → ℕ → ℕ
error_on_leave e system_error =
    if e.calling_replacement && not (e.system_error == e.original_system_error)
    then e.system_error
    else system_error

unfoldable pub leave_calls : Platform → ℕ → Interceptor → ℕ → CpuContext → StackEntry → Calls
unfolding leave_listeners error_on_leave fixup_cpu_context
leave_calls plat me i c cpu e =
    leave_listeners plat e.only_invoke_unignorable_listeners 0 e.listener_entries
      (fixup_cpu_context (i.heap c) cpu, error_on_leave e (i.threads me).system_error, i.log)

-- With the frame of the call on top of the stack.
unfoldable pub leave_frame : Platform → ℕ → Interceptor → ℕ → StackEntry → Calls → Left
unfolding add_usage set_thread pop
leave_frame plat me i c e (cpu, err, log) = record {
  interceptor =
      add_usage
        (set_thread (record i { log = log }) me
          (record (i.threads me) {
            guard = false;
            system_error = err;
            stack = pop (i.threads me).stack;
          }))
        c dec32;
  next_hop = plat.sign_code_pointer e.caller_ret_addr;
  cpu = cpu;
}

-- `none` where no frame is left, and the code reads through NULL.
unfoldable pub leave_top :
    Platform → ℕ → Interceptor → ℕ → CpuContext → Option StackEntry → Option Left
unfolding leave_calls leave_frame
leave_top plat me i c cpu none = none
leave_top plat me i c cpu (some e) =
    some (leave_frame plat me i c e (leave_calls plat me i c cpu e))

unfoldable pub end_invocation : Platform → ℕ → Interceptor → ℕ → CpuContext → Option Left
unfolding reap_thread reap_unwound_above peek_top leave_top
end_invocation plat me i c cpu =
    let j = reap_thread i me (reap_unwound_above i.heap (i.threads me).stack c) in
    leave_top plat me j c cpu (peek_top (j.threads me).stack)
