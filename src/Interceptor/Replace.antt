-- ===== src/Interceptor/Replace.antt =====
-- Replacements, src/core/hooxinterceptor.c: hoox_interceptor_replace, _replace_fast and _revert.
use hoox.Prelude.{ℕ, ◌==◌, Option, none, some, if◌then◌else◌, ◌>>=◌}
use hoox.Interceptor.{
  Interceptor, InterceptorType, default_type, fast_type, Options, Platform, update,
}
use hoox.Interceptor.Commit.{transaction_end}
use hoox.Interceptor.Instrument.{
  InstrumentationError, Instrumented, instrumented, refused, lookup, begin, resolve, instrument,
  drop_empty,
}

-- HooxReplaceReturn
pub data ReplaceReturn : Type 0 where
  replace_ok already_replaced : ReplaceReturn
  replace_failed : InstrumentationError → ReplaceReturn

-- Where the function is not replaced yet; the result also holds what is stored to
-- `original_function`.
unfoldable pub set_replacement : Interceptor → ℕ → ℕ → ℕ → Interceptor × ReplaceReturn × Option ℕ
set_replacement i c replacement_function replacement_data =
    if (i.heap c).replacement_function == 0
    then (
      record i {
        heap = update i.heap c (record (i.heap c) {
          replacement_data = replacement_data;
          replacement_function = replacement_function;
        });
      },
      replace_ok,
      some (i.heap c).on_invoke_trampoline,
    )
    else (i, already_replaced, none)

unfoldable pub replace_instrumented :
    Interceptor × Instrumented → ℕ → ℕ → Interceptor × ReplaceReturn × Option ℕ
unfolding set_replacement
replace_instrumented (i, refused e) replacement_function replacement_data =
    (i, replace_failed e, none)
replace_instrumented (i, instrumented c) replacement_function replacement_data =
    set_replacement i c replacement_function replacement_data

unfoldable pub replace_with_type :
    ℕ
    → Platform
    → ℕ
    → Interceptor
    → InterceptorType
    → ℕ
    → ℕ
    → ℕ
    → Options
    → Option (Interceptor × ReplaceReturn × Option ℕ)
unfolding begin resolve instrument replace_instrumented
replace_with_type fuel plat me i kind function_address replacement_function replacement_data
      options =
    let j = begin i in
    do
      a ← resolve fuel plat j function_address
      found ← instrument plat j kind a options
      let (k, result, original) = replace_instrumented found replacement_function replacement_data
      done ← transaction_end plat me k
      some (done, result, original)

unfoldable pub replace :
    ℕ
    → Platform
    → ℕ
    → Interceptor
    → ℕ
    → ℕ
    → ℕ
    → Options
    → Option (Interceptor × ReplaceReturn × Option ℕ)
unfolding replace_with_type
replace fuel plat me i function_address replacement_function replacement_data options =
    replace_with_type fuel plat me i default_type function_address replacement_function
      replacement_data options

unfoldable pub replace_fast :
    ℕ
    → Platform
    → ℕ
    → Interceptor
    → ℕ
    → ℕ
    → Options
    → Option (Interceptor × ReplaceReturn × Option ℕ)
unfolding replace_with_type
replace_fast fuel plat me i function_address replacement_function options =
    replace_with_type fuel plat me i fast_type function_address replacement_function 0 options

unfoldable pub clear_replacement : Interceptor → ℕ → Interceptor
clear_replacement i c = record i {
  heap = update i.heap c (record (i.heap c) { replacement_function = 0; replacement_data = 0 });
}

-- The part of hoox_interceptor_revert between the transaction's begin and end.
unfoldable pub revert_found : Platform → Interceptor → ℕ → Option ℕ → Option Interceptor
unfolding drop_empty clear_replacement
revert_found plat i a none = some i
revert_found plat i a (some c) = drop_empty plat (clear_replacement i c) a c

unfoldable pub revert_at : Platform → Interceptor → ℕ → Option Interceptor
unfolding lookup revert_found
revert_at plat i a = revert_found plat i a (lookup i.function_by_address a)

unfoldable pub revert : ℕ → Platform → ℕ → Interceptor → ℕ → Option Interceptor
unfolding begin resolve revert_at
revert fuel plat me i target =
    let j = begin i in
    do a ← resolve fuel plat j target; k ← revert_at plat j a; transaction_end plat me k
