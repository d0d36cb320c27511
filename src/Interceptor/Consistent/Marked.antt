-- ===== src/Interceptor/Consistent/Marked.antt =====
-- A transaction in which destroy tasks wait is marked dirty, so that its end does not pass over them.
use hoox.Prelude.{
  ℕ, ◌+◌, ◌++◌, ◌==◌, ◌≡◌, refl, ◌∙◌, Bool, true, false, not, ◌&&◌, Option, none, some, List, [],
  ◌∷◌, if_both, if_each, ◌>>=◌, bind_some, leb,
}
use mathlib.Core.Path.{subst}
use hoox.Interceptor.{
  Equipped, equipped, unequipped, FunctionContext, Heap, Event, run_task, commit_code, DestroyTask,
  Transaction, Interceptor, Platform, Options, InterceptorType, default_type, Listener, dec32,
  positive, max_listeners_per_function,
}
use hoox.Interceptor.Listeners.{has_listener, count_listeners, is_empty, remove_listener}
use hoox.Interceptor.Threads.{ignore_current_thread, unignore_current_thread}
use hoox.Interceptor.Instrument.{
  Instrumented, instrumented, refused, lookup, begin, resolve, instrument, instrument_found, equip,
  drop_empty, remove_context, destroy_context, mark_destroyed, undo_patch, with_transaction,
}
use hoox.Interceptor.Commit.{
  Working, drain, requeue, transaction_init, write_pages, commit, after_write, transaction_end,
  is_nil, schedule_destroy, schedule_update,
}
use hoox.Interceptor.Attach.{
  AttachReturn, attach, attach_to, attach_instrumented, publish, detach, detach_all, detach_from,
  take_listener, give_back, forget_everywhere,
}
use hoox.Interceptor.Replace.{
  ReplaceReturn, replace_with_type, replace_instrumented, set_replacement, revert, revert_at,
  revert_found, clear_replacement,
}

abbrev pub Marked : Transaction → Type 0
Marked t = t.is_dirty ≡ false → t.pending_destroy_tasks ≡ []

abbrev pub IsMarked : Interceptor → Type 0
IsMarked i = Marked i.current_transaction

abbrev IsDirty : Interceptor → Type 0
IsDirty i = i.current_transaction.is_dirty ≡ true

drain-Marked :
    (plat : Platform) (heap : Heap) (k : ℕ) (tasks : List DestroyTask) (t : Transaction)
    (log : List Event)
    → Marked t
    → Marked (drain plat heap k tasks t log).0
unfolding drain requeue
drain-Marked plat heap k [] t log h = h
drain-Marked plat heap k (task ∷ tasks) t log h =
    if_both (λ (r : Transaction × List Event). Marked r.0)
      (plat.usage k task.ctx (heap task.ctx).trampoline_usage_counter == 0) _ _
      (drain-Marked plat heap (k + 1) tasks t (log ++ run_task task ∷ []) h)
      (drain-Marked plat heap (k + 1) tasks (requeue t task) log (λ clean. cc))

after_write-IsMarked :
    (plat : Platform) (t : Transaction) (i : Interceptor) (s : Working)
    → IsMarked (after_write plat t i s)
unfolding after_write transaction_init
after_write-IsMarked plat t i (heap, log) =
    drain-Marked plat heap 0 t.pending_destroy_tasks transaction_init log (λ clean. refl)

-- Every way in which a step may come back leaves the transaction marked.
abbrev AllMarked : Option Interceptor → Type 0
AllMarked o = (j : Interceptor) → o ≡ some j → IsMarked j

AllMarked-some : (k : Interceptor) → IsMarked k → AllMarked (some k)
AllMarked-some k h j e = let same : k ≡ j = cc in subst IsMarked same h

commit-IsMarked :
    (plat : Platform) (me : ℕ) (t : Transaction) (i : Interceptor)
    → AllMarked (commit plat t i >>= λ c. some (unignore_current_thread c me))
unfolding commit unignore_current_thread
commit-IsMarked plat me t i j runs =
    let (c, commits, rest) = bind_some (commit plat t i) _ j runs in
    let (s, writes, after) = bind_some (write_pages plat t (i.heap, i.log)) _ c commits in
    let marked : IsMarked c =
      AllMarked-some (after_write plat t i s) (after_write-IsMarked plat t i s) c after in
    AllMarked-some (unignore_current_thread c me) marked j rest

nil_left {ℓ} : {A : Type ℓ} (xs : List A) (b : Bool) → (is_nil xs && b) ≡ true → xs ≡ []
unfolding is_nil
nil_left [] b h = refl
nil_left (x ∷ xs) b h = cc

pub transaction_end-IsMarked :
    (plat : Platform) (me : ℕ) (i : Interceptor)
    → IsMarked i
    → AllMarked (transaction_end plat me i)
unfolding transaction_end ignore_current_thread unignore_current_thread
transaction_end-IsMarked plat me i h =
    let t = record i.current_transaction { level = dec32 i.current_transaction.level } in
    let j = record i { current_transaction = t } in
    let k = ignore_current_thread (record j { log = i.log ++ commit_code ∷ [] }) me in
    let quiet = record k { current_transaction = record t { is_dirty = false } } in
    let stays : IsMarked j = h in
    if_both AllMarked (positive t.level) _ _ (AllMarked-some j stays) (
      if_both AllMarked (not t.is_dirty) _ _ (AllMarked-some j stays) (
        if_each AllMarked (is_nil t.pending_destroy_tasks && is_nil t.pending_update_tasks) _ _
          (λ nil.
            AllMarked-some (unignore_current_thread quiet me)
              (λ clean. nil_left t.pending_destroy_tasks (is_nil t.pending_update_tasks) nil))
          (λ some_tasks. commit-IsMarked plat me t k)))

-- While a transaction is worked in, it stays dirty.
abbrev AllInstrumented : Option (Interceptor × Instrumented) → Type 0
AllInstrumented o = (r : Interceptor × Instrumented) → o ≡ some r → IsDirty r.0

AllInstrumented-some : (r : Interceptor × Instrumented) → IsDirty r.0 → AllInstrumented (some r)
AllInstrumented-some r h s e =
    let same : r ≡ s = cc in subst (λ (z : Interceptor × Instrumented). IsDirty z.0) same h

equip-IsDirty :
    (plat : Platform) (i : Interceptor) (a : ℕ) (made : Equipped)
    → IsDirty i
    → AllInstrumented (equip plat i a made)
unfolding equip schedule_update
equip-IsDirty plat i a (unequipped slice) h =
    if_both AllInstrumented slice _ _ (λ r e. cc) (AllInstrumented-some (_, _) h)
equip-IsDirty plat i a (equipped ctx) h = AllInstrumented-some (_, _) h

instrument_found-IsDirty :
    (plat : Platform) (i : Interceptor) (kind : InterceptorType) (a : ℕ) (options : Options)
    (found : Option ℕ)
    → IsDirty i
    → AllInstrumented (instrument_found plat i kind a options found)
unfolding instrument_found
instrument_found-IsDirty plat i kind a options (some c) h = AllInstrumented-some (_, _) h
instrument_found-IsDirty plat i kind a options none h = equip-IsDirty plat i a _ h

instrument-IsDirty :
    (plat : Platform) (i : Interceptor) (kind : InterceptorType) (a : ℕ) (options : Options)
    → IsDirty i
    → AllInstrumented (instrument plat i kind a options)
unfolding instrument
instrument-IsDirty plat i kind a options h =
    instrument_found-IsDirty plat i kind a options (lookup i.function_by_address a) h

attach_instrumented-IsDirty :
    (r : Interceptor × Instrumented) (l : Listener) (d : ℕ) (u : Bool)
    → IsDirty r.0
    → IsDirty (attach_instrumented r l d u).0
unfolding attach_instrumented attach_to publish schedule_destroy
attach_instrumented-IsDirty (i, refused e) l d u h = h
attach_instrumented-IsDirty (i, instrumented c) l d u h =
    let entries = (i.heap c).listener_entries in
    let P : Interceptor × AttachReturn → Type 0 = λ r. IsDirty r.0 in
    if_both P (has_listener entries l) _ _ h
      (if_both P (leb max_listeners_per_function (count_listeners entries)) _ _ h h)

replace_instrumented-IsDirty :
    (r : Interceptor × Instrumented) (f d : ℕ)
    → IsDirty r.0
    → IsDirty (replace_instrumented r f d).0
unfolding replace_instrumented set_replacement
replace_instrumented-IsDirty (i, refused e) f d h = h
replace_instrumented-IsDirty (i, instrumented c) f d h =
    if_both (λ (r : Interceptor × ReplaceReturn × Option ℕ). IsDirty r.0)
      ((i.heap c).replacement_function == 0) _ _ h h

abbrev AllDirty : Option Interceptor → Type 0
AllDirty o = (j : Interceptor) → o ≡ some j → IsDirty j

AllDirty-some : (k : Interceptor) → IsDirty k → AllDirty (some k)
AllDirty-some k h j e = let same : k ≡ j = cc in subst IsDirty same h

undo_patch-dirty :
    (plat : Platform) (t : Transaction) (c : ℕ) (ctx : FunctionContext)
    → (undo_patch plat t c ctx).is_dirty ≡ t.is_dirty
unfolding undo_patch schedule_update
undo_patch-dirty plat t c ctx =
    if_both (λ (u : Transaction). u.is_dirty ≡ t.is_dirty) ctx.activated _ _ refl refl

drop_empty-IsDirty :
    (plat : Platform) (i : Interceptor) (a c : ℕ) → IsDirty i → AllDirty (drop_empty plat i a c)
unfolding drop_empty remove_context destroy_context mark_destroyed schedule_destroy
drop_empty-IsDirty plat i a c h =
    if_both AllDirty (is_empty (i.heap c)) _ _
      (if_both AllDirty (i.heap c).destroyed _ _ (λ j dead. cc)
        (AllDirty-some _ (undo_patch-dirty plat i.current_transaction c _ ∙ h)))
      (AllDirty-some i h)

detach_from-IsDirty :
    (plat : Platform) (i : Interceptor) (a c : ℕ) (l : Listener)
    → IsDirty i
    → AllDirty (detach_from plat i a c l)
unfolding detach_from take_listener give_back with_transaction publish schedule_destroy
detach_from-IsDirty plat i a c l h =
    if_both AllDirty (has_listener (i.heap c).listener_entries l) _ _
      (λ j runs.
        let (k, takes, drops) = bind_some (take_listener i c l) _ j runs in
        let (ctx, removed, given) = bind_some (remove_listener (i.heap c) l) _ k takes in
        drop_empty-IsDirty plat k a c (AllDirty-some (give_back i c l ctx) h k given) j drops)
      (AllDirty-some i h)

detach_all-IsDirty :
    (plat : Platform) (i : Interceptor) (table : List (ℕ × ℕ)) (l : Listener)
    → IsDirty i
    → AllDirty (detach_all plat i table l)
unfolding detach_all
detach_all-IsDirty plat i [] l h = AllDirty-some i h
detach_all-IsDirty plat i ((a, c) ∷ table) l h = λ j runs.
    let (k, visits, rest) = bind_some (detach_from plat i a c l) _ j runs in
    detach_all-IsDirty plat k table l (detach_from-IsDirty plat i a c l h k visits) j rest

revert_found-IsDirty :
    (plat : Platform) (i : Interceptor) (a : ℕ) (found : Option ℕ)
    → IsDirty i
    → AllDirty (revert_found plat i a found)
unfolding revert_found clear_replacement
revert_found-IsDirty plat i a none h = AllDirty-some i h
revert_found-IsDirty plat i a (some c) h = drop_empty-IsDirty plat (clear_replacement i c) a c h

-- The operations.
ends-IsMarked :
    (plat : Platform) (me : ℕ) (i : Interceptor) → IsDirty i → AllMarked (transaction_end plat me i)
ends-IsMarked plat me i h = transaction_end-IsMarked plat me i (λ clean. cc)

pub attach-IsMarked :
    (fuel : ℕ) (plat : Platform) (me : ℕ) (i : Interceptor) (target : ℕ) (l : Listener)
    (options : Options) (d : ℕ) (u : Bool) (j : Interceptor) (r : AttachReturn)
    → attach fuel plat me i target l options d u ≡ some (j, r)
    → IsMarked j
unfolding attach begin unignore_current_thread
attach-IsMarked fuel plat me i target l options d u j r runs =
    let start = begin (ignore_current_thread i me) in
    let (a, found, made) = bind_some (resolve fuel plat start target) _ (j, r) runs in
    let (at, makes, rest) =
      bind_some (instrument plat start default_type a options) _ (j, r) made in
    let s = attach_instrumented at l d u in
    let (k, ends, last) = bind_some (transaction_end plat me s.0) _ (j, r) rest in
    let marked =
      ends-IsMarked plat me s.0
        (attach_instrumented-IsDirty at l d u
          (instrument-IsDirty plat start default_type a options refl at makes))
        k ends in
    let same : unignore_current_thread k me ≡ j = cc in subst IsMarked same marked

pub replace_with_type-IsMarked :
    (fuel : ℕ) (plat : Platform) (me : ℕ) (i : Interceptor) (kind : InterceptorType)
    (target f d : ℕ) (options : Options) (j : Interceptor) (r : ReplaceReturn) (original : Option ℕ)
    → replace_with_type fuel plat me i kind target f d options ≡ some (j, r, original)
    → IsMarked j
unfolding replace_with_type begin
replace_with_type-IsMarked fuel plat me i kind target f d options j r original runs =
    let start = begin i in
    let (a, found, made) = bind_some (resolve fuel plat start target) _ (j, r, original) runs in
    let (at, makes, rest) =
      bind_some (instrument plat start kind a options) _ (j, r, original) made in
    let s = replace_instrumented at f d in
    let (k, ends, last) = bind_some (transaction_end plat me s.0) _ (j, r, original) rest in
    let marked =
      ends-IsMarked plat me s.0
        (replace_instrumented-IsDirty at f d
          (instrument-IsDirty plat start kind a options refl at makes))
        k ends in
    let same : k ≡ j = cc in subst IsMarked same marked

pub revert-IsMarked :
    (fuel : ℕ) (plat : Platform) (me : ℕ) (i : Interceptor) (target : ℕ)
    → AllMarked (revert fuel plat me i target)
unfolding revert begin revert_at
revert-IsMarked fuel plat me i target j runs =
    let start = begin i in
    let (a, found, rest) = bind_some (resolve fuel plat start target) _ j runs in
    let (k, reverts, ends) = bind_some (revert_at plat start a) _ j rest in
    ends-IsMarked plat me k
      (revert_found-IsDirty plat start a (lookup i.function_by_address a) refl k reverts) j ends

pub detach-IsMarked :
    (plat : Platform) (me : ℕ) (i : Interceptor) (l : Listener) → AllMarked (detach plat me i l)
unfolding detach begin unignore_current_thread ignore_current_thread forget_everywhere
detach-IsMarked plat me i l j runs =
    let start = begin (ignore_current_thread i me) in
    let (k, goes, rest) = bind_some (detach_all plat start start.function_by_address l) _ j runs in
    let (done, ends, last) = bind_some (transaction_end plat me (forget_everywhere k l)) _ j rest in
    let marked =
      ends-IsMarked plat me (forget_everywhere k l)
        (detach_all-IsDirty plat start start.function_by_address l refl k goes) done ends in
    AllMarked-some (unignore_current_thread done me) marked j last
