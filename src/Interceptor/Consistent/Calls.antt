-- ===== src/Interceptor/Consistent/Calls.antt =====
-- Calls of instrumented functions change counters, threads and the log, and nothing that the table
-- and the updates depend on.
use hoox.Prelude.{
  ℕ, ◌≡◌, refl, sym, ap, ◌∙◌, ◌==◌, Bool, not, ◌&&◌, ◌||◌, Option, none, some, List, [], ◌∷◌, ltb,
  length, if◌then◌else◌, arith, if_both,
}
use mathlib.Core.Path.{subst}
use hoox.Interceptor.{
  FunctionContext, Heap, StackEntry, CpuContext, UpdateTask, Transaction, Interceptor, Platform,
  inc32, dec32,
}
use hoox.Interceptor.Stack.{
  release_trampoline, reap_unwound, reap_unwound_above, was_unwound_past, peek_top, release_dropped,
  restore,
}
use hoox.Interceptor.Invocation.{
  Entered, Calls, add_usage, traps, pushed, enter_calls, enter_trapped, enter_untrapped,
  enter_frame, is_observed, calls_original, reap_thread, begin_invocation,
}
use hoox.Interceptor.Returning.{Left, leave_calls, leave_frame, leave_top, end_invocation}
use hoox.Interceptor.Consistent.Marked.{Marked, IsMarked}
use hoox.Interceptor.Consistent.{Consistent, IsConsistent}

-- Nothing of a context but its counter has changed.
abbrev pub Counted : Heap → Heap → Type 0
Counted heap heap' =
    (c : ℕ)
    → heap' c ≡ record (heap c) { trampoline_usage_counter = (heap' c).trampoline_usage_counter }

-- What a call leaves alone.
abbrev pub Kept : Interceptor → Interceptor → Type 0
Kept i j =
    (j.function_by_address ≡ i.function_by_address)
    × (j.next_ctx ≡ i.next_ctx)
    × (j.current_transaction ≡ i.current_transaction)
    × Counted i.heap j.heap

pub Counted-trans : (h h' h'' : Heap) → Counted h h' → Counted h' h'' → Counted h h''
Counted-trans h h' h'' p q c =
    q c
    ∙ ap {A = FunctionContext}
        (λ ctx. record ctx { trampoline_usage_counter = (h'' c).trampoline_usage_counter }) (p c)

pub Kept-trans : (i j k : Interceptor) → Kept i j → Kept j k → Kept i k
Kept-trans i j k (table, next, open_tx, heap) (table', next', open_tx', heap') = (
  table' ∙ table,
  next' ∙ next,
  open_tx' ∙ open_tx,
  Counted-trans i.heap j.heap k.heap heap heap',
)

add_usage-Kept : (i : Interceptor) (c : ℕ) (f : ℕ → ℕ) → Kept i (add_usage i c f)
unfolding add_usage
add_usage-Kept i c f = (refl, refl, refl, λ x. ground arith)

pub release-Counted : (heap : Heap) (e : StackEntry) → Counted heap (release_trampoline heap e)
unfolding release_trampoline
release-Counted heap e x = ground arith

reap_unwound-Counted :
    (heap : Heap) (stack : List StackEntry) (live : ℕ)
    → Counted heap (reap_unwound heap stack live).0
unfolding reap_unwound
reap_unwound-Counted heap [] live = λ c. refl
reap_unwound-Counted heap (e ∷ below) live =
    if_both (λ (s : Heap × List StackEntry). Counted heap s.0) (was_unwound_past e live) _ _
      (Counted-trans heap (release_trampoline heap e) _ (release-Counted heap e)
        (reap_unwound-Counted (release_trampoline heap e) below live))
      (λ c. refl)

reap_unwound_above-Counted :
    (heap : Heap) (stack : List StackEntry) (c : ℕ)
    → Counted heap (reap_unwound_above heap stack c).0
unfolding reap_unwound_above
reap_unwound_above-Counted heap [] c = λ x. refl
reap_unwound_above-Counted heap (e ∷ below) c =
    if_both (λ (s : Heap × List StackEntry). Counted heap s.0) (e.function_ctx == c) _ _ (λ x. refl)
      (Counted-trans heap (release_trampoline heap e) _ (release-Counted heap e)
        (reap_unwound_above-Counted (release_trampoline heap e) below c))

release_dropped-Counted :
    (heap : Heap) (stack : List StackEntry) (depth : ℕ)
    → Counted heap (release_dropped heap stack depth)
unfolding release_dropped
release_dropped-Counted heap [] depth = λ c. refl
release_dropped-Counted heap (e ∷ below) depth =
    if_both (Counted heap) (ltb (length below) depth) _ _ (λ c. refl)
      (Counted-trans heap (release_dropped heap below depth) _
        (release_dropped-Counted heap below depth)
        (release-Counted (release_dropped heap below depth) e))

reap_thread-Kept :
    (me : ℕ) (i : Interceptor) (reaped : Heap × List StackEntry)
    → Counted i.heap reaped.0
    → Kept i (reap_thread i me reaped)
unfolding reap_thread
reap_thread-Kept me i (heap, stack) h = (refl, refl, refl, h)

enter_trapped-Kept :
    (me : ℕ) (i : Interceptor) (c : ℕ) (e : StackEntry) (calls : Calls)
    → Kept i (enter_trapped me i c e calls).interceptor
unfolding enter_trapped
enter_trapped-Kept me i c e (cpu, err, log) = (refl, refl, refl, λ x. refl)

enter_untrapped-Kept :
    (me : ℕ) (i : Interceptor) (c ret : ℕ) (calls : Calls)
    → Kept i (enter_untrapped me i c ret calls).interceptor
unfolding enter_untrapped
enter_untrapped-Kept me i c ret (cpu, err, log) = (refl, refl, refl, λ x. ground arith)

enter_frame-Kept :
    (plat : Platform) (me : ℕ) (i : Interceptor) (c : ℕ) (cpu : CpuContext) (ret : ℕ)
    (invoke only : Bool)
    → Kept i (enter_frame plat me i c cpu ret invoke only).interceptor
unfolding enter_frame
enter_frame-Kept plat me i c cpu ret invoke only =
    let trap = traps (i.heap c) invoke in
    let e = pushed plat i me c (if trap then ret else (i.heap c).function_address) cpu.sp only in
    let calls = enter_calls plat me i c cpu e invoke in
    if_both (λ (r : Entered). Kept i r.interceptor) trap _ _ (enter_trapped-Kept me i c e calls)
      (enter_untrapped-Kept me i c ret calls)

pub begin_invocation-Kept :
    (plat : Platform) (me : ℕ) (i : Interceptor) (c : ℕ) (cpu : CpuContext) (ret : ℕ)
    → Kept i (begin_invocation plat me i c cpu ret).interceptor
unfolding begin_invocation
begin_invocation-Kept plat me i c cpu ret =
    let j = add_usage i c inc32 in
    let t = j.threads me in
    let up = add_usage-Kept i c inc32 in
    let observed = is_observed j me in
    let only = not observed && (j.heap c).has_unignorable_listener in
    let reaped = reap_unwound j.heap t.stack cpu.sp in
    let k = reap_thread j me reaped in
    let P : Entered → Type 0 = λ r. Kept i r.interceptor in
    let down = Kept-trans i j (add_usage j c dec32) up (add_usage-Kept j c dec32) in
    if_both P t.guard _ _ down (
      if_both P (calls_original plat j c (peek_top t.stack)) _ _ down (
        Kept-trans i k (enter_frame plat me k c cpu ret (observed || only) only).interceptor
          (Kept-trans i j k up
            (reap_thread-Kept me j reaped (reap_unwound-Counted j.heap t.stack cpu.sp)))
          (enter_frame-Kept plat me k c cpu ret (observed || only) only)))

leave_frame-Kept :
    (plat : Platform) (me : ℕ) (i : Interceptor) (c : ℕ) (e : StackEntry) (calls : Calls)
    → Kept i (leave_frame plat me i c e calls).interceptor
unfolding leave_frame
leave_frame-Kept plat me i c e (cpu, err, log) = (refl, refl, refl, λ x. ground arith)

leave_top-Kept :
    (plat : Platform) (me : ℕ) (i : Interceptor) (c : ℕ) (cpu : CpuContext)
    (top : Option StackEntry) (r : Left)
    → leave_top plat me i c cpu top ≡ some r
    → Kept i r.interceptor
unfolding leave_top
leave_top-Kept plat me i c cpu none r runs = cc
leave_top-Kept plat me i c cpu (some e) r runs =
    let left = leave_frame plat me i c e (leave_calls plat me i c cpu e) in
    let same : left ≡ r = cc in
    subst (λ (z : Left). Kept i z.interceptor) same
      (leave_frame-Kept plat me i c e (leave_calls plat me i c cpu e))

pub end_invocation-Kept :
    (plat : Platform) (me : ℕ) (i : Interceptor) (c : ℕ) (cpu : CpuContext) (r : Left)
    → end_invocation plat me i c cpu ≡ some r
    → Kept i r.interceptor
unfolding end_invocation
end_invocation-Kept plat me i c cpu r runs =
    let reaped = reap_unwound_above i.heap (i.threads me).stack c in
    let j = reap_thread i me reaped in
    Kept-trans i j r.interceptor
      (reap_thread-Kept me i reaped (reap_unwound_above-Counted i.heap (i.threads me).stack c))
      (leave_top-Kept plat me j c cpu (peek_top (j.threads me).stack) r runs)

pub restore-Kept :
    (me : ℕ) (i : Interceptor) (depth : ℕ)
    → Kept i (reap_thread i me (restore i.heap (i.threads me).stack depth))
unfolding restore
restore-Kept me i depth =
    let stack = (i.threads me).stack in
    reap_thread-Kept me i (restore i.heap stack depth) (
      if_both (λ (s : Heap × List StackEntry). Counted i.heap s.0) (length stack == depth) _ _
        (λ c. refl) (release_dropped-Counted i.heap stack depth))

Counted-Consistent :
    (table : List (ℕ × ℕ)) (heap heap' : Heap) (next : ℕ) (pending : List (ℕ × List UpdateTask))
    → Counted heap heap'
    → Consistent table heap next pending
    → Consistent table heap' next pending
Counted-Consistent table heap heap' next pending same h = record {
  ready = λ x. ground (arith, h.ready x, same x);
  distinct = h.distinct;
  unique = h.unique;
  listed = λ a x at. ground (arith, h.listed a x at, same x);
  known = λ x alive. ground (arith, h.known x, same x);
  unused = λ x free. ground (arith, h.unused x free, same x);
  bounded = λ x. ground (arith, h.bounded x, same x);
}

pub Kept-IsConsistent : (i j : Interceptor) → Kept i j → IsConsistent i → IsConsistent j
Kept-IsConsistent i j (table, next, open_tx, heap) h =
    let pending = i.current_transaction.pending_update_tasks in
    let counted =
      Counted-Consistent i.function_by_address i.heap j.heap i.next_ctx pending heap h in
    subst (λ t. Consistent t j.heap j.next_ctx j.current_transaction.pending_update_tasks)
      (sym table)
      (subst
        (λ n. Consistent i.function_by_address j.heap n j.current_transaction.pending_update_tasks)
        (sym next)
        (subst
          (λ (t : Transaction).
            Consistent i.function_by_address j.heap i.next_ctx t.pending_update_tasks)
          (sym open_tx) counted))

pub Kept-IsMarked : (i j : Interceptor) → Kept i j → IsMarked i → IsMarked j
Kept-IsMarked i j (table, next, open_tx, heap) h = subst Marked (sym open_tx) h
