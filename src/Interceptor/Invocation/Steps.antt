-- ===== src/Interceptor/Invocation/Steps.antt =====
-- Returns, hoox_interceptor_restore, and any sequence of these: the counters follow the frames.
use hoox.Prelude.{
  ltb, length, ℕ, ◌+◌, ◌≡◌, refl, sym, ap, ◌∙◌, ◌⊎◌, ◌==◌, inl, inr, none, some, List, [], ◌∷◌,
  if◌then◌else◌, arith, Bool-cases, if_both,
}
use mathlib.Core.Path.{subst}
use hoox.Interceptor.{Interceptor, Heap, StackEntry, CpuContext, Platform}
use hoox.Interceptor.Invocation.Balance.{
  IsBalanced, Counts, release-Counts, reap_unwound_above-Counts, reap_thread-stack,
  reap_thread-IsBalanced, begin_invocation-IsBalanced,
}
use hoox.Interceptor.Stack.{
  restore, release_dropped, keep, peek_top, release_trampoline, reap_unwound_above,
}
use hoox.Interceptor.Invocation.{Calls, reap_thread, begin_invocation}
use hoox.Interceptor.Returning.{Left, leave_calls, leave_frame, leave_top, end_invocation}

leave_frame-IsBalanced :
    (plat : Platform) (base : ℕ → ℕ) (me : ℕ) (i : Interceptor) (e : StackEntry)
    (below : List StackEntry) (calls : Calls)
    → (i.threads me).stack ≡ e ∷ below
    → IsBalanced base me i
    → IsBalanced base me (leave_frame plat me i e.function_ctx e calls).interceptor
unfolding leave_frame
leave_frame-IsBalanced plat base me i e below (cpu, err, log) top h x = ground (arith, h x)

-- What is left above and including the top is a frame of the function, if anything is.
reap_unwound_above-top :
    (heap : Heap) (stack : List StackEntry) (c : ℕ)
    → ((reap_unwound_above heap stack c).1 ≡ [])
      ⊎ ((e : StackEntry) × (below : List StackEntry) × ((reap_unwound_above heap stack c).1
            ≡ e ∷ below)
          × (e.function_ctx ≡ c))
unfolding reap_unwound_above
reap_unwound_above-top heap [] c = inl refl
reap_unwound_above-top heap (e ∷ below) c = elim (Bool-cases (e.function_ctx == c)) [
  | inl found ↦ inr (e, below, ground arith, ground arith)
  | inr other ↦ rw other (reap_unwound_above-top (release_trampoline heap e) below c)
]

leave_top-IsBalanced :
    (plat : Platform) (base : ℕ → ℕ) (me : ℕ) (i : Interceptor) (c : ℕ) (cpu : CpuContext)
    (r : Left)
    → (((i.threads me).stack ≡ [])
        ⊎ ((e : StackEntry) × (below : List StackEntry) × ((i.threads me).stack ≡ e ∷ below)
            × (e.function_ctx ≡ c)))
    → leave_top plat me i c cpu (peek_top (i.threads me).stack) ≡ some r
    → IsBalanced base me i
    → IsBalanced base me r.interceptor
unfolding leave_top peek_top
leave_top-IsBalanced plat base me i c cpu r (inl none_left) runs h =
    let dead : none ≡ some r =
      ap (λ s. leave_top plat me i c cpu (peek_top s)) (sym none_left) ∙ runs in
    cc
leave_top-IsBalanced plat base me i c cpu r (inr (e, below, top, own)) runs h =
    let f = leave_frame plat me i e.function_ctx e (leave_calls plat me i e.function_ctx cpu e) in
    let ends : some f ≡ some r =
      ap (λ k. some (leave_frame plat me i k e (leave_calls plat me i k cpu e))) own
      ∙ ap (λ s. leave_top plat me i c cpu (peek_top s)) (sym top)
      ∙ runs in
    let same : f ≡ r = cc in
    subst (λ (z : Left). IsBalanced base me z.interceptor) same
      (leave_frame-IsBalanced plat base me i e below (leave_calls plat me i e.function_ctx cpu e)
        top h)

-- The return of a call gives its frame back, and those that were unwound past, and no other.
pub end_invocation-IsBalanced :
    (plat : Platform) (base : ℕ → ℕ) (me : ℕ) (i : Interceptor) (c : ℕ) (cpu : CpuContext)
    (r : Left)
    → end_invocation plat me i c cpu ≡ some r
    → IsBalanced base me i
    → IsBalanced base me r.interceptor
unfolding end_invocation reap_thread
end_invocation-IsBalanced plat base me i c cpu r runs h =
    let reaped = reap_unwound_above i.heap (i.threads me).stack c in
    let j = reap_thread i me reaped in
    let at = reap_thread-stack me i reaped in
    leave_top-IsBalanced plat base me j c cpu r
      (elim (reap_unwound_above-top i.heap (i.threads me).stack c) [
        | inl e ↦ inl (at ∙ e)
        | inr (e, below, left, own) ↦ inr (e, below, at ∙ left, own)
      ])
      runs
      (reap_thread-IsBalanced base me i reaped
        (reap_unwound_above-Counts base i.heap (i.threads me).stack c h))

drop-Counts :
    (base : ℕ → ℕ) (heap : Heap) (stack : List StackEntry) (depth : ℕ)
    → Counts base heap stack
    → Counts base (release_dropped heap stack depth) (keep stack depth)
unfolding release_dropped keep
drop-Counts base heap [] depth h = h
drop-Counts base heap (e ∷ below) depth h = elim (Bool-cases (ltb (length below) depth)) [
  | inl stays ↦ rw stays h
  | inr goes ↦
      let more : ℕ → ℕ = λ x. base x + (if e.function_ctx == x then 1 else 0) in
      let dropped = drop-Counts more heap below depth (λ x. omega (arith, h x)) in
      rw goes (
        release-Counts base (release_dropped heap below depth) e (keep below depth)
          (λ x. omega (arith, dropped x)))
]

pub restore-Counts :
    (base : ℕ → ℕ) (heap : Heap) (stack : List StackEntry) (depth : ℕ)
    → Counts base heap stack
    → Counts base (restore heap stack depth).0 (restore heap stack depth).1
unfolding restore
restore-Counts base heap stack depth h =
    if_both (λ (s : Heap × List StackEntry). Counts base s.0 s.1) (length stack == depth) _ _ h
      (drop-Counts base heap stack depth h)

-- What a thread does with its stack, call by call.
pub data Step (plat : Platform) (me : ℕ) (i : Interceptor) : Interceptor → Type 0 where
  enter :
      (c : ℕ) (cpu : CpuContext) (ret : ℕ)
      → Step plat me i (begin_invocation plat me i c cpu ret).interceptor
  leave :
      (c : ℕ) (cpu : CpuContext) (r : Left)
      → end_invocation plat me i c cpu ≡ some r
      → Step plat me i r.interceptor
  unwind :
      (depth : ℕ) → Step plat me i (reap_thread i me (restore i.heap (i.threads me).stack depth))

pub data Reach (plat : Platform) (me : ℕ) (i : Interceptor) : Interceptor → Type 0 where
  here : Reach plat me i i
  next : {j k : Interceptor} → Reach plat me i j → Step plat me j k → Reach plat me i k

Step-IsBalanced :
    {plat : Platform} (base : ℕ → ℕ) {me : ℕ} {i j : Interceptor}
    → Step plat me i j
    → IsBalanced base me i
    → IsBalanced base me j
Step-IsBalanced {plat} base {me} {i} (enter c cpu ret) h =
    begin_invocation-IsBalanced plat base me i c cpu ret h
Step-IsBalanced {plat} base {me} {i} (leave c cpu r runs) h =
    end_invocation-IsBalanced plat base me i c cpu r runs h
Step-IsBalanced {plat} base {me} {i} (unwind depth) h =
    reap_thread-IsBalanced base me i (restore i.heap (i.threads me).stack depth)
      (restore-Counts base i.heap (i.threads me).stack depth h)

-- Whatever calls of instrumented functions begin and end on a thread, and whatever it unwinds by
-- hoox_interceptor_restore, each function's usage counter stays what others hold plus the number of
-- its frames on the thread's invocation stack, as a word of 32 bits.
pub Reach-IsBalanced :
    {plat : Platform} (base : ℕ → ℕ) {me : ℕ} {i j : Interceptor}
    → Reach plat me i j
    → IsBalanced base me i
    → IsBalanced base me j
Reach-IsBalanced base here h = h
Reach-IsBalanced base (next r s) h = Step-IsBalanced base s (Reach-IsBalanced base r h)
