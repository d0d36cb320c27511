-- ===== src/Interceptor/Listeners.antt =====
-- The listeners of a function, src/core/hooxinterceptor.c: hoox_function_context_*_listener. An
-- array of entries is copied on every change; a listener that is removed leaves an empty slot.
use hoox.Prelude.{
  ℕ, ◌+◌, ◌==◌, Bool, true, false, not, ◌||◌, Option, none, some, List, [], ◌∷◌, ◌++◌,
  if◌then◌else◌,
}
use hoox.Interceptor.{Listener, ListenerEntry, FunctionContext}

unfoldable pub is_of : Listener → Option ListenerEntry → Bool
is_of l none = false
is_of l (some e) = e.listener.instance_address == l.instance_address

-- hoox_function_context_find_listener, whose result is only compared with NULL
unfoldable pub has_listener : List (Option ListenerEntry) → Listener → Bool
unfolding is_of
has_listener [] l = false
has_listener (slot ∷ slots) l = is_of l slot || has_listener slots l

unfoldable pub count_listeners : List (Option ListenerEntry) → ℕ
count_listeners [] = 0
count_listeners (none ∷ slots) = count_listeners slots
count_listeners (some e ∷ slots) = count_listeners slots + 1

unfoldable pub has_taken_slot : List (Option ListenerEntry) → Bool
has_taken_slot [] = false
has_taken_slot (none ∷ slots) = has_taken_slot slots
has_taken_slot (some e ∷ slots) = true

-- hoox_function_context_is_empty
unfoldable pub is_empty : FunctionContext → Bool
unfolding has_taken_slot
is_empty c =
    if not (c.replacement_function == 0) then false else not (has_taken_slot c.listener_entries)

unfoldable pub compact : List (Option ListenerEntry) → List (Option ListenerEntry)
compact [] = []
compact (none ∷ slots) = compact slots
compact (some e ∷ slots) = some e ∷ compact slots

unfoldable pub new_entry : Listener → ℕ → Bool → ListenerEntry
new_entry l function_data unignorable = record {
  listener = l;
  function_data = function_data;
  unignorable = unignorable;
}

unfoldable pub add_listener : FunctionContext → Listener → ℕ → Bool → FunctionContext
unfolding compact new_entry
add_listener c l function_data unignorable = record c {
  listener_entries =
      compact c.listener_entries ++ some (new_entry l function_data unignorable) ∷ [];
  has_on_leave_listener = l.has_on_leave || c.has_on_leave_listener;
  has_unignorable_listener = unignorable || c.has_unignorable_listener;
}

unfoldable pub clear_slots : List (Option ListenerEntry) → Listener → List (Option ListenerEntry)
unfolding is_of
clear_slots [] l = []
clear_slots (slot ∷ slots) l = (if is_of l slot then none else slot) ∷ clear_slots slots l

-- The two flags, taken anew over what the loop keeps.
unfoldable pub any_on_leave : List (Option ListenerEntry) → Bool
any_on_leave [] = false
any_on_leave (none ∷ slots) = any_on_leave slots
any_on_leave (some e ∷ slots) = e.listener.has_on_leave || any_on_leave slots

unfoldable pub any_unignorable : List (Option ListenerEntry) → Bool
any_unignorable [] = false
any_unignorable (none ∷ slots) = any_unignorable slots
any_unignorable (some e ∷ slots) = e.unignorable || any_unignorable slots

unfoldable pub without_listener : FunctionContext → Listener → FunctionContext
unfolding clear_slots any_on_leave any_unignorable
without_listener c l =
    let entries = clear_slots c.listener_entries l in
    record c {
      listener_entries = entries;
      has_on_leave_listener = any_on_leave entries;
      has_unignorable_listener = any_unignorable entries;
    }

-- `none` is the assertion that a listener was removed.
unfoldable pub remove_listener : FunctionContext → Listener → Option FunctionContext
unfolding has_listener without_listener
remove_listener c l =
    if has_listener c.listener_entries l then some (without_listener c l) else none
