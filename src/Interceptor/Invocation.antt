-- ===== src/Interceptor/Invocation.antt =====
-- A call of an instrumented function, src/core/hooxinterceptor.c:
-- _hoox_function_context_begin_invocation, from the on-enter trampoline, on the thread `me`, on AArch64 and not on Windows. A listener's callback
-- sees the registers and the error number, and does not call the interceptor.
pub mod Balance
pub mod Returns
pub mod Steps
use hoox.Prelude.{
  ℕ, ◌+◌, ◌==◌, Bool, true, false, not, ◌&&◌, ◌||◌, Option, none, some, List, [], ◌∷◌, ◌++◌,
  if◌then◌else◌,
}
use hoox.Interceptor.{
  Interceptor, FunctionContext, Heap, StackEntry, ThreadContext, ListenerEntry, Event,
  call_on_enter, call_on_leave, CpuContext, Platform, update, inc32, dec32, positive,
}
use hoox.Interceptor.Stack.{push, peek_top, pop, reap_unwound, reap_unwound_above}
use hoox.Interceptor.Threads.{set_thread}

-- What a trampoline goes on with: whether the return is trapped, the caller's return address in its
-- place, the next hop and the registers.
pub record Entered : Type 0 where
  pub interceptor : Interceptor
  pub will_trap_on_leave : Bool
  pub caller_ret_addr : ℕ
  pub next_hop : ℕ
  pub cpu : CpuContext

unfoldable pub add_usage : Interceptor → ℕ → (ℕ → ℕ) → Interceptor
add_usage i c f = record i {
  heap =
      update i.heap c
        (record (i.heap c) { trampoline_usage_counter = f (i.heap c).trampoline_usage_counter });
}

unfoldable pub fixup_cpu_context : FunctionContext → CpuContext → CpuContext
fixup_cpu_context ctx cpu = record cpu { pc = ctx.function_address }

-- The registers, the error number of the invocation, and the calls made.
abbrev pub Calls : Type 0
Calls = CpuContext × ℕ × List Event

unfoldable pub is_passed_over : Bool → ListenerEntry → Bool
is_passed_over only e = only && not e.unignorable

-- One round of the loop of begin_invocation, `k` the index of the slot and of its data.
enter_one : Platform → Bool → ℕ → ListenerEntry → Calls → Calls
unfolding is_passed_over
enter_one plat only k e (cpu, err, log) =
    let (cpu', err') = plat.entered e (cpu, err) in
    if is_passed_over only e
    then (cpu, err, log)
    else if e.listener.has_on_enter
    then (cpu', err', log ++ call_on_enter k e err ∷ [])
    else (cpu, err, log)

unfoldable pub enter_listeners : Platform → Bool → ℕ → List (Option ListenerEntry) → Calls → Calls
unfolding enter_one
enter_listeners plat only k [] s = s
enter_listeners plat only k (none ∷ slots) s = enter_listeners plat only (k + 1) slots s
enter_listeners plat only k (some e ∷ slots) s =
    enter_listeners plat only (k + 1) slots (enter_one plat only k e s)

-- The replacement calls the function that it replaces.
unfoldable pub calls_original : Platform → Interceptor → ℕ → Option StackEntry → Bool
calls_original plat i c none = false
calls_original plat i c (some e) =
    e.calling_replacement && plat.strip_code_pointer e.function == (i.heap c).function_address

-- invoke_listeners before the unignorable listeners are looked at
unfoldable pub is_observed : Interceptor → ℕ → Bool
is_observed i me =
    (i.selected_thread_id == 0 || me == i.selected_thread_id)
    && not (positive (i.threads me).ignore_level)

-- Both bypasses: the function runs as if it had no listeners, and the counter is given back.
unfoldable pub bypass : Interceptor → ℕ → CpuContext → ℕ → Entered
bypass i c cpu ret = record {
  interceptor = add_usage i c dec32;
  will_trap_on_leave = false;
  caller_ret_addr = ret;
  next_hop = (i.heap c).on_invoke_trampoline;
  cpu = cpu;
}

-- The entry that is pushed, with what the code sets in it before the listeners run.
unfoldable pub pushed : Platform → Interceptor → ℕ → ℕ → ℕ → ℕ → Bool → StackEntry
unfolding push
pushed plat i me c ret sp only = record (push plat i.heap (i.threads me).stack c ret sp only) {
  system_error = (i.threads me).system_error;
  listener_entries = (i.heap c).listener_entries;
}

-- The entry that stays on the stack when the return is trapped.
unfoldable pub kept : FunctionContext → StackEntry → CpuContext → ℕ → StackEntry
kept ctx e cpu err =
    if ctx.replacement_function == 0 then record e { system_error = err } else record e {
      system_error = err;
      calling_replacement = true;
      cpu_context = cpu;
      original_system_error = err;
    }

next_hop_of : FunctionContext → ℕ
next_hop_of ctx =
    if ctx.replacement_function == 0 then ctx.on_invoke_trampoline else ctx.replacement_function

unfoldable pub traps : FunctionContext → Bool → Bool
traps ctx invoke = not (ctx.replacement_function == 0) || invoke && ctx.has_on_leave_listener

-- The listeners run, where they do.
unfoldable pub enter_calls : Platform → ℕ → Interceptor → ℕ → CpuContext → StackEntry → Bool → Calls
unfolding enter_listeners fixup_cpu_context
enter_calls plat me i c cpu e invoke =
    let at_pc = fixup_cpu_context (i.heap c) cpu in
    if invoke
    then enter_listeners plat e.only_invoke_unignorable_listeners 0 e.listener_entries
        (at_pc, e.system_error, i.log)
    else (at_pc, (i.threads me).system_error, i.log)

-- The entry stays on the stack, and the call will return to the on-leave trampoline.
unfoldable pub enter_trapped : ℕ → Interceptor → ℕ → StackEntry → Calls → Entered
unfolding kept next_hop_of set_thread
enter_trapped me i c e (cpu, err, log) = record {
  interceptor =
      set_thread (record i { log = log }) me
        (record (i.threads me) {
          guard = false;
          system_error = err;
          stack = kept (i.heap c) e cpu err ∷ (i.threads me).stack;
        });
  will_trap_on_leave = true;
  caller_ret_addr = (i.heap c).on_leave_trampoline;
  next_hop = next_hop_of (i.heap c);
  cpu = cpu;
}

-- The entry, where there was one, is gone, and the call will return to its caller.
unfoldable pub enter_untrapped : ℕ → Interceptor → ℕ → ℕ → Calls → Entered
unfolding add_usage set_thread
enter_untrapped me i c ret (cpu, err, log) = record {
  interceptor =
      add_usage
        (set_thread (record i { log = log }) me
          (record (i.threads me) { guard = false; system_error = err }))
        c dec32;
  will_trap_on_leave = false;
  caller_ret_addr = ret;
  next_hop = (i.heap c).on_invoke_trampoline;
  cpu = cpu;
}

-- From the push on: `i` has its stack reaped, `invoke` says whether listeners run, and `only`
-- whether only the unignorable ones do.
unfoldable pub enter_frame : Platform → ℕ → Interceptor → ℕ → CpuContext → ℕ → Bool → Bool → Entered
unfolding traps pushed enter_calls enter_trapped enter_untrapped
enter_frame plat me i c cpu ret invoke only =
    let trap = traps (i.heap c) invoke in
    let e = pushed plat i me c (if trap then ret else (i.heap c).function_address) cpu.sp only in
    let calls = enter_calls plat me i c cpu e invoke in
    if trap then enter_trapped me i c e calls else enter_untrapped me i c ret calls

unfoldable pub reap_thread : Interceptor → ℕ → Heap × List StackEntry → Interceptor
unfolding set_thread
reap_thread i me (heap, stack) =
    set_thread (record i { heap = heap }) me (record (i.threads me) { stack = stack })

unfoldable pub begin_invocation : Platform → ℕ → Interceptor → ℕ → CpuContext → ℕ → Entered
unfolding add_usage bypass calls_original is_observed reap_thread reap_unwound peek_top enter_frame
begin_invocation plat me i c cpu ret =
    let j = add_usage i c inc32 in
    let t = j.threads me in
    let observed = is_observed j me in
    let only = not observed && (j.heap c).has_unignorable_listener in
    let k = reap_thread j me (reap_unwound j.heap t.stack cpu.sp) in
    if t.guard
    then bypass j c cpu ret
    else if calls_original plat j c (peek_top t.stack)
    then bypass j c cpu ret
    else enter_frame plat me k c cpu ret (observed || only) only
