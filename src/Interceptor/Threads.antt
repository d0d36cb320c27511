-- ===== src/Interceptor/Threads.antt =====
-- What a thread keeps, src/core/hooxinterceptor.c: hoox_interceptor_ignore_* and _unignore_*, and
-- the slots of listener data of interceptor_thread_context_*.
use hoox.Prelude.{
  ℕ, zero, suc, ◌+◌, ◌==◌, Bool, true, false, not, Option, none, some, List, [], ◌∷◌, ◌++◌, ltb,
  if◌then◌else◌, length,
}
use hoox.Interceptor.{
  Interceptor, ThreadContext, ListenerDataSlot, Listener, update, inc32, dec32, positive,
  max_listener_data,
}

unfoldable pub set_thread : Interceptor → ℕ → ThreadContext → Interceptor
set_thread i me t = record i { threads = update i.threads me t }

unfoldable pub ignore_current_thread : Interceptor → ℕ → Interceptor
unfolding set_thread
ignore_current_thread i me =
    set_thread i me (record (i.threads me) { ignore_level = inc32 (i.threads me).ignore_level })

unfoldable pub unignore_current_thread : Interceptor → ℕ → Interceptor
unfolding set_thread
unignore_current_thread i me =
    set_thread i me (record (i.threads me) { ignore_level = dec32 (i.threads me).ignore_level })

unfoldable pub maybe_unignore_current_thread : Interceptor → ℕ → Interceptor × Bool
unfolding unignore_current_thread
maybe_unignore_current_thread i me =
    if not (positive (i.threads me).ignore_level)
    then (i, false)
    else (unignore_current_thread i me, true)

unfoldable pub ignore_other_threads : Interceptor → ℕ → Interceptor
ignore_other_threads i me = record i { selected_thread_id = me }

unfoldable pub unignore_other_threads : Interceptor → ℕ → Option Interceptor
unignore_other_threads i me =
    if i.selected_thread_id == me then some (record i { selected_thread_id = 0 }) else none

-- memset, and what hx_array_set_size adds
zeros : ℕ → List ℕ
zeros zero = []
zeros (suc n) = 0 ∷ zeros n

-- The loop of interceptor_thread_context_get_listener_data: the owner's slot, or the last free one.
find_data_slot : List ListenerDataSlot → ℕ → ℕ → Option ℕ → Option ℕ × Option ℕ
find_data_slot [] listener i available = (none, available)
find_data_slot (s ∷ slots) listener i available =
    let rest = find_data_slot slots listener (i + 1) (if s.owner == 0 then some i else available) in
    if s.owner == listener then (some i, available) else rest

set_slot : List ListenerDataSlot → ℕ → ListenerDataSlot → List ListenerDataSlot
set_slot [] i s = []
set_slot (x ∷ slots) zero s = s ∷ slots
set_slot (x ∷ slots) (suc i) s = x ∷ set_slot slots i s

fresh_slot : ℕ → ListenerDataSlot
fresh_slot listener = record { owner = listener; contents = zeros max_listener_data }

claim_slot : List ListenerDataSlot → ℕ → Option ℕ × Option ℕ → List ListenerDataSlot × Option ℕ
unfolding set_slot fresh_slot zeros
claim_slot slots listener (some i, available) = (slots, some i)
claim_slot slots listener (none, some i) = (set_slot slots i (fresh_slot listener), some i)
claim_slot slots listener (none, none) = (slots ++ fresh_slot listener ∷ [], some (length slots))

-- The result is the index of the slot.
unfoldable pub get_listener_data : ThreadContext → Listener → ℕ → ThreadContext × Option ℕ
unfolding claim_slot find_data_slot
get_listener_data t l required_size =
    if ltb max_listener_data required_size
    then (t, none)
    else let (slots, i) =
        claim_slot t.listener_data_slots l.instance_address
          (find_data_slot t.listener_data_slots l.instance_address 0 none) in
      (record t { listener_data_slots = slots }, i)

forget_slots : List ListenerDataSlot → ℕ → List ListenerDataSlot
forget_slots [] listener = []
forget_slots (s ∷ slots) listener =
    let rest = s ∷ forget_slots slots listener in
    if s.owner == listener then record s { owner = 0 } ∷ slots else rest

unfoldable pub forget_listener_data : ThreadContext → Listener → ThreadContext
unfolding forget_slots
forget_listener_data t l = record t {
  listener_data_slots = forget_slots t.listener_data_slots l.instance_address;
}

-- interceptor_thread_context_new
unfoldable pub thread_context_new : ThreadContext
thread_context_new = record {
  ignore_level = 0;
  guard = false;
  system_error = 0;
  stack = [];
  listener_data_slots = [];
}
