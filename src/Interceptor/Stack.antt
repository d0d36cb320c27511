-- ===== src/Interceptor/Stack.antt =====
-- The invocation stack, src/core/hooxinterceptor.c: hoox_invocation_stack_*, and
-- hoox_interceptor_save and _restore.
use hoox.Prelude.{
  ℕ, Bool, false, ◌==◌, Option, none, some, List, [], ◌∷◌, ltb, if◌then◌else◌, length,
}
use hoox.Interceptor.{Heap, StackEntry, update, dec32, Platform}

-- hx_array_set_size clears what it adds; the caller sets the rest of the entry.
unfoldable pub push : Platform → Heap → List StackEntry → ℕ → ℕ → ℕ → Bool → StackEntry
push plat heap stack c caller_ret_addr stack_address only = record {
  function_ctx = c;
  caller_ret_addr = caller_ret_addr;
  stack_address = stack_address;
  function = plat.sign_code_pointer (heap c).function_address;
  system_error = 0;
  cpu_context = record { pc = 0; sp = 0; others = λ r. 0 };
  listener_entries = [];
  calling_replacement = false;
  only_invoke_unignorable_listeners = only;
  original_system_error = 0;
}

unfoldable pub peek_top : List StackEntry → Option StackEntry
peek_top [] = none
peek_top (e ∷ below) = some e

unfoldable pub pop : List StackEntry → List StackEntry
pop [] = []
pop (e ∷ below) = below

unfoldable pub release_trampoline : Heap → StackEntry → Heap
release_trampoline heap e = update heap e.function_ctx (record (heap e.function_ctx) {
  trampoline_usage_counter = dec32 (heap e.function_ctx).trampoline_usage_counter;
})

unfoldable pub was_unwound_past : StackEntry → ℕ → Bool
was_unwound_past e live_stack_address = ltb e.stack_address live_stack_address

unfoldable pub reap_unwound : Heap → List StackEntry → ℕ → Heap × List StackEntry
unfolding was_unwound_past
reap_unwound heap [] live = (heap, [])
reap_unwound heap (e ∷ below) live =
    let rest = reap_unwound (release_trampoline heap e) below live in
    if was_unwound_past e live then rest else (heap, e ∷ below)

unfoldable pub reap_unwound_above : Heap → List StackEntry → ℕ → Heap × List StackEntry
reap_unwound_above heap [] returning = (heap, [])
reap_unwound_above heap (e ∷ below) returning =
    let rest = reap_unwound_above (release_trampoline heap e) below returning in
    if e.function_ctx == returning then (heap, e ∷ below) else rest

-- The loop starts at the bottom of the stack, and returns from the first entry that fits.
translate_from : Heap → List StackEntry → ℕ → Option ℕ
translate_from heap [] return_address = none
translate_from heap (e ∷ below) return_address = elim (translate_from heap below return_address) [
  | some a ↦ some a
  | none ↦
      if (heap e.function_ctx).on_leave_trampoline == return_address
      then some e.caller_ret_addr
      else none
]

unfoldable pub translate : Heap → List StackEntry → ℕ → ℕ
unfolding translate_from
translate heap stack return_address = elim (translate_from heap stack return_address) [
  | some a ↦ a
  | none ↦ return_address
]

-- _hoox_interceptor_translate_top_return_address and _peek_top_caller_return_address
unfoldable pub translate_top : Heap → List StackEntry → ℕ → ℕ
translate_top heap [] return_address = return_address
translate_top heap (e ∷ below) return_address =
    if (heap e.function_ctx).on_leave_trampoline == return_address
    then e.caller_ret_addr
    else return_address

unfoldable pub peek_top_caller_return_address : List StackEntry → ℕ
peek_top_caller_return_address [] = 0
peek_top_caller_return_address (e ∷ below) = e.caller_ret_addr

-- hoox_interceptor_save takes the depth, and hoox_interceptor_restore unwinds to it, for a depth
-- that the stack still has. The loop releases from the bottom of the part it drops upwards.
unfoldable pub save : List StackEntry → ℕ
save stack = length stack

unfoldable pub release_dropped : Heap → List StackEntry → ℕ → Heap
release_dropped heap [] depth = heap
release_dropped heap (e ∷ below) depth =
    let rest = release_trampoline (release_dropped heap below depth) e in
    if ltb (length below) depth then heap else rest

unfoldable pub keep : List StackEntry → ℕ → List StackEntry
keep [] depth = []
keep (e ∷ below) depth =
    let rest = keep below depth in if ltb (length below) depth then e ∷ below else rest

unfoldable pub restore : Heap → List StackEntry → ℕ → Heap × List StackEntry
unfolding release_dropped keep
restore heap stack depth =
    if length stack == depth
    then (heap, stack)
    else (release_dropped heap stack depth, keep stack depth)

-- The loop of interceptor_thread_context_destroy, which releases every frame of the thread, from the
-- bottom of its stack upwards.
unfoldable pub release_frames : Heap → List StackEntry → Heap
release_frames heap [] = heap
release_frames heap (e ∷ below) = release_trampoline (release_frames heap below) e
