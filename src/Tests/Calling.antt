-- ===== src/Tests/Calling.antt =====
-- Calls of an instrumented function at concrete inputs.
use hoox.Prelude.{◌≡◌, refl, true, false, some, [], ◌∷◌, arith}
use hoox.Interceptor.{FunctionContext, Interceptor, ListenerEntry, StackEntry, CpuContext, update}
use hoox.Interceptor.Stack.{reap_unwound}
use hoox.Interceptor.Flush.{interceptor_init, unallocated}
use hoox.Interceptor.Invocation.{begin_invocation}
use hoox.Interceptor.Returning.{end_invocation, Left}
use hoox.Interceptor.Invocation.Balance.{IsBalanced}
use hoox.Interceptor.Invocation.Returns.{call_returns}
use hoox.Interceptor.Invocation.Steps.{here, next, enter, Reach-IsBalanced}
use hoox.Tests.Hooking.{machine, watcher}

entry : ListenerEntry
entry = record { listener = watcher; function_data = 0; unignorable = false }

-- The context 1 is that of a function at 0x4000 with one listener, the context 2 that of one with
-- none.
hook : FunctionContext
unfolding unallocated entry
hook = record unallocated {
  function_address = 0x4000;
  destroyed = false;
  activated = true;
  has_on_leave_listener = true;
  on_invoke_trampoline = 0x104000;
  on_leave_trampoline = 0x204000;
  listener_entries = some entry ∷ [];
}

abbrev cpu : CpuContext
cpu = record { pc = 0; sp = 0x9000; others = λ r. 0 }

ready : Interceptor
unfolding interceptor_init hook
ready = record interceptor_init { heap = update (λ c. unallocated) 1 hook }

-- The call.
called : Interceptor
called = (begin_invocation machine 9 ready 1 cpu 0x5000).interceptor

ready-IsBalanced : IsBalanced (λ c. 0) 9 ready
unfolding ready
ready-IsBalanced c = ground arith

Reach-IsBalanced_example : IsBalanced (λ c. 0) 9 called
unfolding called
Reach-IsBalanced_example =
    Reach-IsBalanced (λ c. 0) (next here (enter 1 cpu 0x5000)) ready-IsBalanced

traps : (begin_invocation machine 9 ready 1 cpu 0x5000).will_trap_on_leave ≡ true
unfolding begin_invocation ready machine
traps = refl

-- A frame of the function 2 is left above, as by a call that an exception unwound past.
unwound : StackEntry
unwound = record {
  function_ctx = 2;
  caller_ret_addr = 0x6000;
  stack_address = 0x8000;
  function = 0;
  system_error = 0;
  cpu_context = cpu;
  listener_entries = [];
  calling_replacement = false;
  only_invoke_unignorable_listeners = false;
  original_system_error = 0;
}

deeper : Interceptor
deeper = record called {
  threads =
      update called.threads 9
        (record (called.threads 9) { stack = unwound ∷ (called.threads 9).stack });
}

call_returns_example :
    (r : Left) × (end_invocation machine 9 deeper 1 cpu ≡ some r)
    × (r.next_hop ≡ machine.sign_code_pointer 0x5000)
    × ((r.interceptor.threads 9).stack ≡ (reap_unwound ready.heap (ready.threads 9).stack cpu.sp).1)
    × ((r.interceptor.threads 9).guard ≡ false)
unfolding deeper called unwound
call_returns_example =
    call_returns machine 9 ready deeper 1 cpu cpu 0x5000 (unwound ∷ []) traps (omega arith, tt) refl
