-- ===== src/Interceptor/Invocation/Returns.antt =====
-- Where a trapped call returns to, and what is left on the stack, also when calls within it were
-- unwound past by an exception or longjmp.
use hoox.Prelude.{
  ℕ, ◌≡◌, ◌≢◌, refl, sym, ap, ◌∙◌, Bool, not, ◌&&◌, ◌||◌, true, false, inl, inr, some, List, [],
  ◌∷◌, ◌++◌, arith, Bool-cases, if_both,
}
use hoox.Interceptor.{Interceptor, Heap, StackEntry, CpuContext, Platform, inc32}
use hoox.Interceptor.Stack.{peek_top, release_trampoline, reap_unwound, reap_unwound_above}
use hoox.Interceptor.Invocation.{
  Entered, Calls, kept, add_usage, traps, pushed, enter_calls, enter_trapped, enter_frame,
  is_observed, calls_original, reap_thread, begin_invocation,
}
use hoox.Interceptor.Returning.{Left, leave_calls, leave_frame, leave_top, end_invocation}
use hoox.Interceptor.Invocation.Balance.{reap_thread-stack}

-- None of the frames is one of the function.
abbrev pub Without : ℕ → List StackEntry → Type 0
Without c [] = Unit {0}
Without c (e ∷ above) = (e.function_ctx ≢ c) × Without c above

pub reap_unwound_above_lem :
    (heap : Heap) (above : List StackEntry) (e : StackEntry) (below : List StackEntry)
    → Without e.function_ctx above
    → (reap_unwound_above heap (above ++ e ∷ below) e.function_ctx).1 ≡ e ∷ below
unfolding reap_unwound_above
reap_unwound_above_lem heap [] e below h = ground arith
reap_unwound_above_lem heap (x ∷ above) e below h =
    ground (arith, reap_unwound_above_lem (release_trampoline heap x) above e below h.1)

leave_frame_lem :
    (plat : Platform) (me : ℕ) (i : Interceptor) (c : ℕ) (e : StackEntry) (below : List StackEntry)
    (calls : Calls)
    → (i.threads me).stack ≡ e ∷ below
    → let r = leave_frame plat me i c e calls in
      (r.next_hop ≡ plat.sign_code_pointer e.caller_ret_addr)
      × ((r.interceptor.threads me).stack ≡ below)
      × ((r.interceptor.threads me).guard ≡ false)
unfolding leave_frame
leave_frame_lem plat me i c e below (cpu, err, log) top = (ground arith, ground arith, ground arith)

-- The return of a call whose frame `e` is on the stack, under frames of other functions.
pub end_invocation_lem :
    (plat : Platform) (me : ℕ) (i : Interceptor) (cpu : CpuContext) (above : List StackEntry)
    (e : StackEntry) (below : List StackEntry)
    → (i.threads me).stack ≡ above ++ e ∷ below
    → Without e.function_ctx above
    → (r : Left) × (end_invocation plat me i e.function_ctx cpu ≡ some r)
      × (r.next_hop ≡ plat.sign_code_pointer e.caller_ret_addr)
      × ((r.interceptor.threads me).stack ≡ below)
      × ((r.interceptor.threads me).guard ≡ false)
unfolding end_invocation
end_invocation_lem plat me i cpu above e below at others =
    let c = e.function_ctx in
    let reaped = reap_unwound_above i.heap (i.threads me).stack c in
    let j = reap_thread i me reaped in
    let left : reaped.1 ≡ e ∷ below =
      ap (λ s. (reap_unwound_above i.heap s c).1) at
      ∙ reap_unwound_above_lem i.heap above e below others in
    let top : (j.threads me).stack ≡ e ∷ below = reap_thread-stack me i reaped ∙ left in
    let calls = leave_calls plat me j c cpu e in
    let (hop, rest, guard) = leave_frame_lem plat me j c e below calls top in
    (
      leave_frame plat me j c e calls,
      ap (λ s. leave_top plat me j c cpu (peek_top s)) top,
      hop,
      rest,
      guard,
    )

-- A trapped call: its frame is on top, and the on-leave trampoline is where it will return to.
abbrev Trapped : ℕ → ℕ → ℕ → ℕ → List StackEntry → Entered → Type 0
Trapped me c ret on_leave below r =
    r.will_trap_on_leave ≡ true
    → (e : StackEntry) × ((r.interceptor.threads me).stack ≡ e ∷ below)
      × (e.function_ctx ≡ c)
      × (e.caller_ret_addr ≡ ret)
      × (r.caller_ret_addr ≡ on_leave)

enter_trapped-Trapped :
    (me : ℕ) (i : Interceptor) (c ret : ℕ) (e : StackEntry) (calls : Calls)
    → e.function_ctx ≡ c
    → e.caller_ret_addr ≡ ret
    → Trapped me c ret
        (i.heap c).on_leave_trampoline
        (i.threads me).stack
        (enter_trapped me i c e calls)
unfolding enter_trapped
enter_trapped-Trapped me i c ret e (cpu, err, log) own address trapped =
    (kept (i.heap c) e cpu err, ground arith, ground arith, ground arith, refl)

enter_frame-Trapped :
    (plat : Platform) (me : ℕ) (i : Interceptor) (c : ℕ) (cpu : CpuContext) (ret : ℕ)
    (invoke only : Bool)
    → Trapped me c ret
        (i.heap c).on_leave_trampoline
        (i.threads me).stack
        (enter_frame plat me i c cpu ret invoke only)
unfolding enter_frame
enter_frame-Trapped plat me i c cpu ret invoke only =
    let e = pushed plat i me c ret cpu.sp only in
    elim (Bool-cases (traps (i.heap c) invoke)) [
      | inl trap ↦
          rw (trap, traps)
            (enter_trapped-Trapped me i c ret e (enter_calls plat me i c cpu e invoke) refl refl)
      | inr go ↦ rw (go, traps) (λ h. cc)
    ]

reap_unwound-stack :
    (heap heap' : Heap) (stack : List StackEntry) (live : ℕ)
    → (reap_unwound heap stack live).1 ≡ (reap_unwound heap' stack live).1
unfolding reap_unwound
reap_unwound-stack heap heap' [] live = refl
reap_unwound-stack heap heap' (e ∷ below) live =
    ground (
      arith,
      reap_unwound-stack (release_trampoline heap e) (release_trampoline heap' e) below live,
    )

reap_unwound-on_leave :
    (heap : Heap) (stack : List StackEntry) (live c : ℕ)
    → ((reap_unwound heap stack live).0 c).on_leave_trampoline ≡ (heap c).on_leave_trampoline
unfolding reap_unwound release_trampoline
reap_unwound-on_leave heap [] live c = refl
reap_unwound-on_leave heap (e ∷ below) live c =
    ground (arith, reap_unwound-on_leave (release_trampoline heap e) below live c)

Trapped-cong :
    (me c ret : ℕ) (o o' : ℕ) (below below' : List StackEntry) (r : Entered)
    → o ≡ o'
    → below ≡ below'
    → Trapped me c ret o below r
    → Trapped me c ret o' below' r
Trapped-cong me c ret o o' below below' r p q h trapped =
    let (e, top, own, address, planted) = h trapped in
    (e, top ∙ ap (λ z. e ∷ z) q, own, address, planted ∙ p)

add_usage-on_leave :
    (i : Interceptor) (c : ℕ) (f : ℕ → ℕ) (x : ℕ)
    → ((add_usage i c f).heap x).on_leave_trampoline ≡ (i.heap x).on_leave_trampoline
unfolding add_usage
add_usage-on_leave i c f x = ground arith

pub begin_invocation-Trapped :
    (plat : Platform) (me : ℕ) (i : Interceptor) (c : ℕ) (cpu : CpuContext) (ret : ℕ)
    → Trapped me c ret
        (i.heap c).on_leave_trampoline
        (reap_unwound i.heap (i.threads me).stack cpu.sp).1
        (begin_invocation plat me i c cpu ret)
unfolding begin_invocation
begin_invocation-Trapped plat me i c cpu ret =
    let j = add_usage i c inc32 in
    let t = i.threads me in
    let observed = is_observed j me in
    let only = not observed && (j.heap c).has_unignorable_listener in
    let reaped = reap_unwound j.heap t.stack cpu.sp in
    let k = reap_thread j me reaped in
    let o = (i.heap c).on_leave_trampoline in
    let below = (reap_unwound i.heap t.stack cpu.sp).1 in
    let frame =
      Trapped-cong me c ret (k.heap c).on_leave_trampoline o (k.threads me).stack below
        (enter_frame plat me k c cpu ret (observed || only) only)
        (reap_unwound-on_leave j.heap t.stack cpu.sp c ∙ add_usage-on_leave i c inc32 c)
        (reap_thread-stack me j reaped ∙ reap_unwound-stack j.heap i.heap t.stack cpu.sp)
        (enter_frame-Trapped plat me k c cpu ret (observed || only) only) in
    let P : Entered → Type 0 = Trapped me c ret o below in
    if_both P t.guard _ _ (λ h. cc)
      (if_both P (calls_original plat j c (peek_top t.stack)) _ _ (λ h. cc) frame)

-- When begin_invocation has trapped a call, and frames of other functions only have come to stand
-- above what it left on the stack, end_invocation comes back, goes on at the caller's signed return
-- address, leaves the stack as begin_invocation had found it, less the frames that were unwound
-- past by then, and clears the guard.
pub call_returns :
    (plat : Platform) (me : ℕ) (i j : Interceptor) (c : ℕ) (cpu cpu' : CpuContext) (ret : ℕ)
    (above : List StackEntry)
    → (begin_invocation plat me i c cpu ret).will_trap_on_leave ≡ true
    → Without c above
    → (j.threads me).stack
      ≡ above ++ ((begin_invocation plat me i c cpu ret).interceptor.threads me).stack
    → (r : Left) × (end_invocation plat me j c cpu' ≡ some r)
      × (r.next_hop ≡ plat.sign_code_pointer ret)
      × ((r.interceptor.threads me).stack ≡ (reap_unwound i.heap (i.threads me).stack cpu.sp).1)
      × ((r.interceptor.threads me).guard ≡ false)
call_returns plat me i j c cpu cpu' ret above trapped others at =
    let (e, top, own, address, planted) = begin_invocation-Trapped plat me i c cpu ret trapped in
    let (r, runs, hop, rest, guard) =
      end_invocation_lem plat me j cpu' above e (reap_unwound i.heap (i.threads me).stack cpu.sp).1
        (at ∙ ap (λ s. above ++ s) top) (rw own others) in
    (
      r,
      ap (λ k. end_invocation plat me j k cpu') (sym own) ∙ runs,
      hop ∙ ap plat.sign_code_pointer address,
      rest,
      guard,
    )
