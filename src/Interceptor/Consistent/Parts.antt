-- ===== src/Interceptor/Consistent/Parts.antt =====
-- The changes that the operations are made of keep the interceptor consistent.
use hoox.Prelude.{
  ℕ, ◌+◌, ◌≤◌, ◌≡◌, refl, true, false, none, some, List, [], if◌then◌else◌, arith, if_both, length,
}
use hoox.Interceptor.{
  FunctionContext, Heap, UpdateTask, UpdateFunc, activate, deactivate, Transaction, Interceptor,
  Platform, update, max_listeners_per_function,
}
use hoox.Interceptor.Instrument.{
  lookup, remove, enter_context, undo_patch, mark_destroyed, destroy_context, remove_context,
}
use hoox.Interceptor.Commit.{schedule_update, schedule_destroy}
use hoox.Interceptor.Commit.Pending.{
  pending_count, Distinct, hits, schedule_update-count, schedule_update-Distinct,
}
use hoox.Interceptor.Commit.Updates.{Ready, Patched}
use hoox.Interceptor.Consistent.{Consistent, IsConsistent}
use hoox.Interceptor.Consistent.Table.{lookup-remove, remove-Unique}

-- A context that is changed in its listeners or its replacement alone.
pub store-Consistent :
    (table : List (ℕ × ℕ)) (heap : Heap) (next : ℕ) (pending : List (ℕ × List UpdateTask)) (c : ℕ)
    (ctx : FunctionContext)
    → ctx.function_address ≡ (heap c).function_address
    → ctx.destroyed ≡ (heap c).destroyed
    → ctx.activated ≡ (heap c).activated
    → length ctx.listener_entries ≤ max_listeners_per_function
    → Consistent table heap next pending
    → Consistent table (update heap c ctx) next pending
store-Consistent table heap next pending c ctx same_address same_state same_patch short h = record {
  ready = λ x. ground (arith, h.ready x);
  distinct = h.distinct;
  unique = h.unique;
  listed = λ a x at. ground (arith, h.listed a x at);
  known = λ x alive. ground (arith, h.known x);
  unused = λ x free. ground (arith, h.unused x free);
  bounded = λ x. ground (arith, h.bounded x);
}

-- A commit patches what waits.
pub Patched-Consistent :
    (table : List (ℕ × ℕ)) (heap heap' : Heap) (next : ℕ) (pending : List (ℕ × List UpdateTask))
    → ((c : ℕ) → Ready (heap' c) 0 0)
    → Patched heap heap'
    → Consistent table heap next pending
    → Consistent table heap' next []
unfolding pending_count
Patched-Consistent table heap heap' next pending ready same h = record {
  ready = ready;
  distinct = tt;
  unique = h.unique;
  listed = λ a x at. ground (arith, h.listed a x at, same x);
  known = λ x alive. ground (arith, h.known x, same x);
  unused = λ x free. ground (arith, h.unused x free, same x, ready x);
  bounded = λ x. ground (arith, h.bounded x, same x);
}

pub enter_context-IsConsistent :
    (plat : Platform) (i : Interceptor) (a : ℕ) (ctx : FunctionContext)
    → lookup i.function_by_address a ≡ none
    → ctx.function_address ≡ a
    → ctx.destroyed ≡ false
    → ctx.activated ≡ false
    → ctx.listener_entries ≡ []
    → IsConsistent i
    → IsConsistent (enter_context plat i a ctx)
unfolding enter_context lookup hits
enter_context-IsConsistent plat i a ctx new address alive off empty h =
    let n = i.next_ctx in
    let t = i.current_transaction in
    let counted : (f : UpdateFunc) (x : ℕ)
        → pending_count f x (schedule_update plat t n ctx activate).pending_update_tasks
          ≡ pending_count f x t.pending_update_tasks + hits f x activate n =
      λ f x. schedule_update-count plat t n ctx activate f x in
    record {
      ready = λ x. ground (arith, h.ready x, h.unused x, counted activate x, counted deactivate x);
      distinct = schedule_update-Distinct plat t n ctx activate h.distinct;
      unique = (new, h.unique);
      listed = λ b x at. ground (arith, h.listed b x, h.unused x);
      known = λ x lives. ground (arith, h.known x, h.unused x);
      unused = λ x free. ground (arith, h.unused x, counted activate x, counted deactivate x);
      bounded = λ x. ground (arith, h.bounded x);
    }

undo_patch-count :
    (plat : Platform) (t : Transaction) (c : ℕ) (ctx : FunctionContext) (f : UpdateFunc) (x : ℕ)
    → pending_count f x (undo_patch plat t c ctx).pending_update_tasks
      ≡ pending_count f x t.pending_update_tasks
        + (if ctx.activated then hits f x deactivate c else 0)
unfolding undo_patch
undo_patch-count plat t c ctx f x =
    ground (arith, schedule_update-count plat t c ctx deactivate f x)

undo_patch-Distinct :
    (plat : Platform) (t : Transaction) (c : ℕ) (ctx : FunctionContext)
    → Distinct t.pending_update_tasks
    → Distinct (undo_patch plat t c ctx).pending_update_tasks
unfolding undo_patch
undo_patch-Distinct plat t c ctx h =
    if_both (λ (u : Transaction). Distinct u.pending_update_tasks) ctx.activated _ _
      (schedule_update-Distinct plat t c ctx deactivate h) h

-- The state after the context `c` of the function at `a` was dropped.
abbrev without : Platform → Interceptor → ℕ → ℕ → Interceptor
without plat i a c =
    mark_destroyed plat (record i { function_by_address = remove i.function_by_address a }) c

without-IsConsistent :
    (plat : Platform) (i : Interceptor) (a c : ℕ)
    → lookup i.function_by_address a ≡ some c
    → IsConsistent i
    → IsConsistent (without plat i a c)
unfolding mark_destroyed schedule_destroy hits
without-IsConsistent plat i a c at h =
    let t = i.current_transaction in
    let ctx = record (i.heap c) { destroyed = true } in
    let counted : (f : UpdateFunc) (x : ℕ)
        → pending_count f x (undo_patch plat t c ctx).pending_update_tasks
          ≡ pending_count f x t.pending_update_tasks
            + (if ctx.activated then hits f x deactivate c else 0) =
      λ f x. undo_patch-count plat t c ctx f x in
    let table = i.function_by_address in
    record {
      ready =
          λ x. ground (arith, h.ready x, h.listed a c at, counted activate x, counted deactivate x);
      distinct = undo_patch-Distinct plat t c ctx h.distinct;
      unique = remove-Unique table a h.unique;
      listed = λ b x at'.
          ground (arith, h.listed b x, h.listed a c at, lookup-remove table a b h.unique);
      known = λ x lives. ground (
        arith,
        h.known x,
        h.known c,
        h.listed a c at,
        lookup-remove table a (i.heap x).function_address h.unique,
      );
      unused = λ x free.
          ground (arith, h.unused x, h.listed a c at, counted activate x, counted deactivate x);
      bounded = λ x. ground (arith, h.bounded x, h.bounded c);
    }

pub remove_context-IsConsistent :
    (plat : Platform) (i : Interceptor) (a c : ℕ)
    → lookup i.function_by_address a ≡ some c
    → IsConsistent i
    → (j : Interceptor) × (remove_context plat i a c ≡ some j)
      × IsConsistent j
      × (j.function_by_address ≡ remove i.function_by_address a)
      × ((x : ℕ) → (j.heap x).listener_entries ≡ (i.heap x).listener_entries)
unfolding remove_context destroy_context mark_destroyed
remove_context-IsConsistent plat i a c at h = (
  without plat i a c,
  rw (h.listed a c at).0 refl,
  without-IsConsistent plat i a c at h,
  refl,
  λ x. ground arith,
)
