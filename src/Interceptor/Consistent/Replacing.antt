-- ===== src/Interceptor/Consistent/Replacing.antt =====
-- Replacing and reverting keep the interceptor consistent, and no assertion fails.
use hoox.Prelude.{◌==◌, ◌≡◌, ◌≢◌, refl, ap, ℕ, ◌∙◌, Option, none, some, arith, if_both}
use hoox.Interceptor.{Interceptor, Platform, Options, InterceptorType}
use hoox.Interceptor.Instrument.{
  Instrumented, instrumented, refused, lookup, resolve, begin, drop_empty,
}
use hoox.Interceptor.Listeners.{is_empty}
use hoox.Interceptor.Replace.{
  ReplaceReturn, set_replacement, replace_instrumented, replace_with_type, clear_replacement,
  revert_found, revert_at, revert,
}
use hoox.Interceptor.Consistent.{IsConsistent}
use hoox.Interceptor.Consistent.Parts.{store-Consistent, remove_context-IsConsistent}
use hoox.Interceptor.Consistent.Table.{lookup-remove}
use hoox.Interceptor.Consistent.Ending.{Answers, transaction_end-IsConsistent}
use hoox.Interceptor.Consistent.Operations.{IsReliable, instrument-IsConsistent}

set_replacement-IsConsistent :
    (i : Interceptor) (c replacement_function replacement_data : ℕ)
    → IsConsistent i
    → IsConsistent (set_replacement i c replacement_function replacement_data).0
unfolding set_replacement
set_replacement-IsConsistent i c f d h =
    if_both (λ (r : Interceptor × ReplaceReturn × Option ℕ). IsConsistent r.0)
      ((i.heap c).replacement_function == 0) _ _
      (store-Consistent i.function_by_address i.heap i.next_ctx
        i.current_transaction.pending_update_tasks c
        (record (i.heap c) { replacement_data = d; replacement_function = f }) refl refl refl
        (h.bounded c) h)
      h

replace_instrumented-IsConsistent :
    (r : Interceptor × Instrumented) (f d : ℕ)
    → IsConsistent r.0
    → IsConsistent (replace_instrumented r f d).0
unfolding replace_instrumented
replace_instrumented-IsConsistent (i, refused e) f d h = h
replace_instrumented-IsConsistent (i, instrumented c) f d h = set_replacement-IsConsistent i c f d h

pub replace_with_type-IsConsistent :
    (fuel : ℕ) (plat : Platform) (me : ℕ) (i : Interceptor) (kind : InterceptorType)
    (target f d : ℕ) (options : Options) (a : ℕ)
    → IsReliable plat
    → resolve fuel plat (begin i) target ≡ some a
    → IsConsistent i
    → (j : Interceptor) × (r : ReplaceReturn) × (original : Option ℕ) × (replace_with_type fuel plat
          me i kind target f d options
        ≡ some (j, r, original))
      × IsConsistent j
unfolding replace_with_type begin
replace_with_type-IsConsistent fuel plat me i kind target f d options a sure found h =
    let (at, makes, sound) = instrument-IsConsistent plat (begin i) kind a options sure h in
    let r = replace_instrumented at f d in
    let kept = replace_instrumented-IsConsistent at f d sound in
    let (done, runs, still, ended) = transaction_end-IsConsistent plat me r.0 sure.patches kept in
    (done, r.1, r.2, rw (found, makes, runs), still)

-- Of the listeners nothing has changed, and of the table one address at most.
abbrev pub ChangedAt : ℕ → Interceptor → Interceptor → Type 0
ChangedAt a i j =
    ((x : ℕ) → (j.heap x).listener_entries ≡ (i.heap x).listener_entries)
    × ((b : ℕ) → a ≢ b → lookup j.function_by_address b ≡ lookup i.function_by_address b)

-- A function that nothing is left on is dropped.
pub drop_empty-IsConsistent :
    (plat : Platform) (i : Interceptor) (a c : ℕ)
    → lookup i.function_by_address a ≡ some c
    → IsConsistent i
    → Answers (drop_empty plat i a c) (ChangedAt a i)
unfolding drop_empty
drop_empty-IsConsistent plat i a c at h =
    let (j, runs, kept, table, entries) = remove_context-IsConsistent plat i a c at h in
    let P : Option Interceptor → Type 0 = λ o. Answers o (ChangedAt a i) in
    if_both P (is_empty (i.heap c)) _ _
      (
        j,
        runs,
        kept,
        (
          entries,
          λ b other.
              ap (λ t. lookup t b) table
              ∙ lookup-remove i.function_by_address a b h.unique
              ∙ ground arith,
        ),
      )
      (i, refl, h, (λ x. refl, λ b other. refl))

clear_replacement-IsConsistent :
    (i : Interceptor) (c : ℕ) → IsConsistent i → IsConsistent (clear_replacement i c)
unfolding clear_replacement
clear_replacement-IsConsistent i c h =
    store-Consistent i.function_by_address i.heap i.next_ctx
      i.current_transaction.pending_update_tasks c
      (record (i.heap c) { replacement_function = 0; replacement_data = 0 }) refl refl refl
      (h.bounded c) h

clear_replacement-table :
    (i : Interceptor) (c a : ℕ)
    → lookup (clear_replacement i c).function_by_address a ≡ lookup i.function_by_address a
unfolding clear_replacement
clear_replacement-table i c a = refl

revert_found-IsConsistent :
    (plat : Platform) (i : Interceptor) (a : ℕ) (found : Option ℕ)
    → lookup i.function_by_address a ≡ found
    → IsConsistent i
    → (j : Interceptor) × (revert_found plat i a found ≡ some j) × IsConsistent j
unfolding revert_found
revert_found-IsConsistent plat i a none at h = (i, refl, h)
revert_found-IsConsistent plat i a (some c) at h =
    let (j, runs, kept, same) =
      drop_empty-IsConsistent plat (clear_replacement i c) a c (clear_replacement-table i c a ∙ at)
        (clear_replacement-IsConsistent i c h) in
    (j, runs, kept)

revert_at-IsConsistent :
    (plat : Platform) (i : Interceptor) (a : ℕ)
    → IsConsistent i
    → (j : Interceptor) × (revert_at plat i a ≡ some j) × IsConsistent j
unfolding revert_at
revert_at-IsConsistent plat i a h =
    revert_found-IsConsistent plat i a (lookup i.function_by_address a) refl h

pub revert-IsConsistent :
    (fuel : ℕ) (plat : Platform) (me : ℕ) (i : Interceptor) (target a : ℕ)
    → IsReliable plat
    → resolve fuel plat (begin i) target ≡ some a
    → IsConsistent i
    → (j : Interceptor) × (revert fuel plat me i target ≡ some j) × IsConsistent j
unfolding revert begin
revert-IsConsistent fuel plat me i target a sure found h =
    let (k, goes, kept) = revert_at-IsConsistent plat (begin i) a h in
    let (done, runs, still, ended) = transaction_end-IsConsistent plat me k sure.patches kept in
    (done, rw (found, goes) runs, still)
