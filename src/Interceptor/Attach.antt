-- ===== src/Interceptor/Attach.antt =====
-- Listeners come and go, src/core/hooxinterceptor.c: hoox_interceptor_attach and _detach. `none` is a
-- failed assertion, hx_abort, or a chain of redirects longer than the fuel.
use hoox.Prelude.{ℕ, Bool, Option, some, List, [], ◌∷◌, leb, if◌then◌else◌, ◌>>=◌}
use hoox.Interceptor.{
  Interceptor, FunctionContext, default_type, Listener, Options, unref_entries, unref_listener,
  Platform, update, max_listeners_per_function,
}
use hoox.Interceptor.Listeners.{has_listener, count_listeners, add_listener, remove_listener}
use hoox.Interceptor.Threads.{ignore_current_thread, unignore_current_thread, forget_listener_data}
use hoox.Interceptor.Commit.{transaction_end, schedule_destroy}
use hoox.Interceptor.Instrument.{
  InstrumentationError, Instrumented, instrumented, refused, with_transaction, begin, resolve,
  instrument, drop_empty,
}

-- HooxAttachReturn
pub data AttachReturn : Type 0 where
  attach_ok already_attached too_many_listeners : AttachReturn
  attach_failed : InstrumentationError → AttachReturn

-- A new array of entries is published, and the old one is dropped when nobody uses it.
unfoldable pub publish : Interceptor → ℕ → FunctionContext → Interceptor
publish i c ctx = record i {
  heap = update i.heap c ctx;
  current_transaction = schedule_destroy i.current_transaction c unref_entries;
}

unfoldable pub attach_to : Interceptor → ℕ → Listener → ℕ → Bool → Interceptor × AttachReturn
unfolding publish
attach_to i c l function_data unignorable =
    if has_listener (i.heap c).listener_entries l
    then (i, already_attached)
    else if leb max_listeners_per_function (count_listeners (i.heap c).listener_entries)
    then (i, too_many_listeners)
    else (publish i c (add_listener (i.heap c) l function_data unignorable), attach_ok)

unfoldable pub attach_instrumented :
    Interceptor × Instrumented → Listener → ℕ → Bool → Interceptor × AttachReturn
unfolding attach_to
attach_instrumented (i, refused e) l function_data unignorable = (i, attach_failed e)
attach_instrumented (i, instrumented c) l function_data unignorable =
    attach_to i c l function_data unignorable

-- HooxAttachOptions are the three last arguments.
unfoldable pub attach :
    ℕ
    → Platform
    → ℕ
    → Interceptor
    → ℕ
    → Listener
    → Options
    → ℕ
    → Bool
    → Option (Interceptor × AttachReturn)
unfolding begin resolve instrument attach_instrumented
attach fuel plat me i target l options function_data unignorable =
    let j = begin (ignore_current_thread i me) in
    do
      a ← resolve fuel plat j target
      found ← instrument plat j default_type a options
      let (k, result) = attach_instrumented found l function_data unignorable
      done ← transaction_end plat me k
      some (unignore_current_thread done me, result)

-- The new entries are published, and the reference to the listener waits to be given back.
unfoldable pub give_back : Interceptor → ℕ → Listener → FunctionContext → Interceptor
unfolding publish
give_back i c l ctx =
    let j = publish i c ctx in
    with_transaction j
      (schedule_destroy j.current_transaction c (unref_listener l.instance_address))

unfoldable pub take_listener : Interceptor → ℕ → Listener → Option Interceptor
unfolding give_back
take_listener i c l = remove_listener (i.heap c) l >>= λ ctx. some (give_back i c l ctx)

-- The body of the loop over the table in hoox_interceptor_detach.
unfoldable pub detach_from : Platform → Interceptor → ℕ → ℕ → Listener → Option Interceptor
unfolding drop_empty take_listener
detach_from plat i a c l =
    if has_listener (i.heap c).listener_entries l
    then (take_listener i c l >>= λ j. drop_empty plat j a c)
    else some i

unfoldable pub detach_all : Platform → Interceptor → List (ℕ × ℕ) → Listener → Option Interceptor
unfolding detach_from
detach_all plat i [] l = some i
detach_all plat i ((a, c) ∷ table) l = detach_from plat i a c l >>= λ j. detach_all plat j table l

unfoldable pub forget_everywhere : Interceptor → Listener → Interceptor
forget_everywhere i l = record i { threads = λ n. forget_listener_data (i.threads n) l }

unfoldable pub detach : Platform → ℕ → Interceptor → Listener → Option Interceptor
unfolding begin detach_all forget_everywhere
detach plat me i l =
    let j = begin (ignore_current_thread i me) in
    do
      k ← detach_all plat j j.function_by_address l
      done ← transaction_end plat me (forget_everywhere k l)
      some (unignore_current_thread done me)
