-- ===== src/Interceptor/Instrument.antt =====
-- The contexts of instrumented functions, src/core/hooxinterceptor.c: hoox_interceptor_resolve and
-- _instrument, hoox_function_context_new and _destroy. `none` is a failed assertion, or a chain of
-- redirects longer than the fuel.
use hoox.Prelude.{
  ℕ, zero, suc, ◌+◌, ◌==◌, Bool, true, false, Option, none, some, List, [], ◌∷◌, if◌then◌else◌,
}
use hoox.Interceptor.{
  Interceptor, Transaction, FunctionContext, InterceptorType, default_type, fast_type, Options,
  perform_destroy, activate, deactivate, Equipped, equipped, unequipped, Platform, update,
}
use hoox.Interceptor.Listeners.{is_empty}
use hoox.Interceptor.Commit.{transaction_begin, schedule_destroy, schedule_update}

-- HOOX_INSTRUMENTATION_ERROR_*
pub data InstrumentationError : Type 0 where
  wrong_signature policy_violation wrong_type : InstrumentationError

-- The context found or made, or the error.
pub data Instrumented : Type 0 where
  instrumented : ℕ → Instrumented
  refused : InstrumentationError → Instrumented

-- function_by_address
unfoldable pub lookup : List (ℕ × ℕ) → ℕ → Option ℕ
lookup [] a = none
lookup ((b, c) ∷ table) a = if b == a then some c else lookup table a

unfoldable pub remove : List (ℕ × ℕ) → ℕ → List (ℕ × ℕ)
remove [] a = []
remove ((b, c) ∷ table) a = if b == a then table else (b, c) ∷ remove table a

unfoldable pub with_transaction : Interceptor → Transaction → Interceptor
with_transaction i t = record i { current_transaction = t }

unfoldable pub begin : Interceptor → Interceptor
unfolding transaction_begin
begin i = record i {
  current_transaction = record (transaction_begin i.current_transaction) { is_dirty = true };
}

unfoldable pub has : Interceptor → ℕ → Bool
unfolding lookup
has i a = elim (lookup i.function_by_address a) [ none ↦ false | some c ↦ true ]

-- hoox_interceptor_resolve; hoox_ensure_code_readable changes no state of the model
unfoldable pub resolve : ℕ → Platform → Interceptor → ℕ → Option ℕ
unfolding has
resolve zero plat i a = none
resolve (suc fuel) plat i address =
    let a = plat.strip_code_pointer address in
    if has i a
    then some a
    else if plat.code_signing_required
    then some a
    else elim (plat.resolve_redirect a) [ none ↦ some a | some target ↦ resolve fuel plat i target ]

unfoldable pub function_context_new : ℕ → InterceptorType → Options → FunctionContext
function_context_new a kind options = record {
  function_address = a;
  kind = kind;
  destroyed = false;
  activated = false;
  has_on_leave_listener = false;
  has_unignorable_listener = false;
  trampoline_usage_counter = 0;
  overwritten_prologue_len = 0;
  on_invoke_trampoline = 0;
  on_leave_trampoline = 0;
  listener_entries = [];
  replacement_function = 0;
  replacement_data = 0;
  options = options;
}

unfoldable pub or_default : ℕ → ℕ → ℕ
or_default n d = if n == 0 then d else n

unfoldable pub effective_options : Options → Options → Options
unfolding or_default
effective_options o defaults = record {
  scratch_register = or_default o.scratch_register defaults.scratch_register;
  scenario = or_default o.scenario defaults.scenario;
  relocation_policy = or_default o.relocation_policy defaults.relocation_policy;
  write_redirect = or_default o.write_redirect defaults.write_redirect;
  write_redirect_data =
      if o.write_redirect == 0 then defaults.write_redirect_data else o.write_redirect_data;
  redirect_space_hint = or_default o.redirect_space_hint defaults.redirect_space_hint;
}

-- HOOX_INTERCEPTOR_SCENARIO_ONLINE and HOOX_RELOCATION_CHECKED are 1, HOOX_RELOCATION_FORCED is 3.
unfoldable pub set_default_options : Interceptor → Options → Interceptor
unfolding or_default
set_default_options i o = record i {
  options = record o {
    scenario = or_default o.scenario 1;
    relocation_policy = or_default o.relocation_policy 1;
  };
}

unfoldable pub same_type : InterceptorType → InterceptorType → Bool
same_type default_type default_type = true
same_type fast_type fast_type = true
same_type default_type fast_type = false
same_type fast_type default_type = false

-- What the backend makes of a new context.
unfoldable pub make_trampoline : Platform → FunctionContext → Equipped
make_trampoline plat ctx =
    if plat.code_signing_required
    then plat.claim_grafted_trampoline ctx
    else plat.create_trampoline ctx (ctx.options.relocation_policy == 3)

-- A context that the backend has equipped is entered into the table and awaits activation.
unfoldable pub enter_context : Platform → Interceptor → ℕ → FunctionContext → Interceptor
enter_context plat i a ctx = record i {
  function_by_address = (a, i.next_ctx) ∷ i.function_by_address;
  has_backend = true;
  heap = update i.heap i.next_ctx ctx;
  next_ctx = i.next_ctx + 1;
  current_transaction = schedule_update plat i.current_transaction i.next_ctx ctx activate;
}

-- What the backend was asked for, or the error: hoox_function_context_finalize asserts that a
-- context that was refused has no slice left.
unfoldable pub equip : Platform → Interceptor → ℕ → Equipped → Option (Interceptor × Instrumented)
unfolding enter_context
equip plat i a (unequipped trampoline_slice) =
    if trampoline_slice
    then none
    else some (
      record i { has_backend = true },
      refused (if plat.code_signing_required then policy_violation else wrong_signature),
    )
equip plat i a (equipped ctx) = some (enter_context plat i a ctx, instrumented i.next_ctx)

unfoldable pub instrument_found :
    Platform
    → Interceptor
    → InterceptorType
    → ℕ
    → Options
    → Option ℕ
    → Option (Interceptor × Instrumented)
unfolding same_type make_trampoline equip effective_options function_context_new
instrument_found plat i kind a options (some c) =
    some (i, if same_type (i.heap c).kind kind then instrumented c else refused wrong_type)
instrument_found plat i kind a options none =
    equip plat i a
      (make_trampoline plat (function_context_new a kind (effective_options options i.options)))

unfoldable pub instrument :
    Platform → Interceptor → InterceptorType → ℕ → Options → Option (Interceptor × Instrumented)
unfolding lookup instrument_found
instrument plat i kind a options =
    instrument_found plat i kind a options (lookup i.function_by_address a)

-- hoox_function_context_destroy: what the table does with a context that it drops
unfoldable pub undo_patch : Platform → Transaction → ℕ → FunctionContext → Transaction
undo_patch plat t c ctx = if ctx.activated then schedule_update plat t c ctx deactivate else t

unfoldable pub mark_destroyed : Platform → Interceptor → ℕ → Interceptor
unfolding undo_patch
mark_destroyed plat i c =
    let ctx = record (i.heap c) { destroyed = true } in
    record i {
      heap = update i.heap c ctx;
      current_transaction =
          schedule_destroy (undo_patch plat i.current_transaction c ctx) c perform_destroy;
    }

unfoldable pub destroy_context : Platform → Interceptor → ℕ → Option Interceptor
unfolding mark_destroyed
destroy_context plat i c = if (i.heap c).destroyed then none else some (mark_destroyed plat i c)

unfoldable pub remove_context : Platform → Interceptor → ℕ → ℕ → Option Interceptor
unfolding remove destroy_context
remove_context plat i a c =
    destroy_context plat (record i { function_by_address = remove i.function_by_address a }) c

-- What becomes of a function that has lost a listener: it is dropped when nothing is left on it.
unfoldable pub drop_empty : Platform → Interceptor → ℕ → ℕ → Option Interceptor
unfolding remove_context
drop_empty plat i a c = if is_empty (i.heap c) then remove_context plat i a c else some i
