-- ===== src/Interceptor/Invocation/Balance.antt =====
-- The usage counters of the trampolines against the frames on a thread's invocation stack.
use hoox.Prelude.{
  ℕ, ◌+◌, ◌%◌, ◌^◌, ◌≡◌, refl, ◌==◌, Bool, not, ◌&&◌, ◌||◌, inl, inr, List, [], ◌∷◌, if◌then◌else◌,
  arith, Bool-cases, if_both,
}
use hoox.Interceptor.{Interceptor, Heap, StackEntry, CpuContext, Platform, inc32, dec32}
use hoox.Interceptor.Stack.{
  peek_top, release_trampoline, reap_unwound, reap_unwound_above, was_unwound_past,
}
use hoox.Interceptor.Invocation.{
  Entered, Calls, add_usage, traps, pushed, enter_calls, is_observed, calls_original, reap_thread,
  enter_trapped, enter_untrapped, enter_frame, begin_invocation,
}

-- The frames that a context has on a stack.
abbrev pub frames : ℕ → List StackEntry → ℕ
frames c [] = 0
frames c (e ∷ below) = frames c below + (if e.function_ctx == c then 1 else 0)

-- Each counter is what others hold, `base`, and one for each frame on the stack, as a 32-bit word.
abbrev pub Counts : (ℕ → ℕ) → Heap → List StackEntry → Type 0
Counts base heap stack =
    (c : ℕ) → (heap c).trampoline_usage_counter ≡ (base c + frames c stack) % 2 ^ 32

abbrev pub IsBalanced : (ℕ → ℕ) → ℕ → Interceptor → Type 0
IsBalanced base me i = Counts base i.heap (i.threads me).stack

pub release-Counts :
    (base : ℕ → ℕ) (heap : Heap) (e : StackEntry) (below : List StackEntry)
    → Counts base heap (e ∷ below)
    → Counts base (release_trampoline heap e) below
unfolding release_trampoline
release-Counts base heap e below h c = ground (arith, h c)

pub reap_unwound-Counts :
    (base : ℕ → ℕ) (heap : Heap) (stack : List StackEntry) (live : ℕ)
    → Counts base heap stack
    → Counts base (reap_unwound heap stack live).0 (reap_unwound heap stack live).1
unfolding reap_unwound
reap_unwound-Counts base heap [] live h = h
reap_unwound-Counts base heap (e ∷ below) live h = elim (Bool-cases (was_unwound_past e live)) [
  | inl past ↦
      rw (past, was_unwound_past)
        (reap_unwound-Counts base (release_trampoline heap e) below live
          (release-Counts base heap e below h))
  | inr alive ↦ rw (alive, was_unwound_past) h
]

pub reap_unwound_above-Counts :
    (base : ℕ → ℕ) (heap : Heap) (stack : List StackEntry) (c : ℕ)
    → Counts base heap stack
    → Counts base (reap_unwound_above heap stack c).0 (reap_unwound_above heap stack c).1
unfolding reap_unwound_above
reap_unwound_above-Counts base heap [] c h = h
reap_unwound_above-Counts base heap (e ∷ below) c h = elim (Bool-cases (e.function_ctx == c)) [
  | inl found ↦ rw found h
  | inr above ↦ rw above (
      reap_unwound_above-Counts base (release_trampoline heap e) below c
        (release-Counts base heap e below h))
]

-- The base with one more for the call that is being set up.
abbrev plus : (ℕ → ℕ) → ℕ → ℕ → ℕ
plus base c x = base x + (if c == x then 1 else 0)

inc-Counts :
    (base : ℕ → ℕ) (i : Interceptor) (c : ℕ) (stack : List StackEntry)
    → Counts base i.heap stack
    → Counts (plus base c) (add_usage i c inc32).heap stack
unfolding add_usage
inc-Counts base i c stack h x = ground (arith, h x)

dec-Counts :
    (base : ℕ → ℕ) (i : Interceptor) (c : ℕ) (stack : List StackEntry)
    → Counts (plus base c) i.heap stack
    → Counts base (add_usage i c dec32).heap stack
unfolding add_usage
dec-Counts base i c stack h x = ground (arith, h x)

enter_trapped-IsBalanced :
    (base : ℕ → ℕ) (me : ℕ) (i : Interceptor) (c : ℕ) (e : StackEntry) (calls : Calls)
    → e.function_ctx ≡ c
    → IsBalanced (plus base c) me i
    → IsBalanced base me (enter_trapped me i c e calls).interceptor
unfolding enter_trapped
enter_trapped-IsBalanced base me i c e (cpu, err, log) own h x = ground (arith, h x)

enter_untrapped-IsBalanced :
    (base : ℕ → ℕ) (me : ℕ) (i : Interceptor) (c ret : ℕ) (calls : Calls)
    → IsBalanced (plus base c) me i
    → IsBalanced base me (enter_untrapped me i c ret calls).interceptor
unfolding enter_untrapped
enter_untrapped-IsBalanced base me i c ret (cpu, err, log) h x = ground (arith, h x)

enter_frame-IsBalanced :
    (plat : Platform) (base : ℕ → ℕ) (me : ℕ) (i : Interceptor) (c : ℕ) (cpu : CpuContext) (ret : ℕ)
    (invoke only : Bool)
    → IsBalanced (plus base c) me i
    → IsBalanced base me (enter_frame plat me i c cpu ret invoke only).interceptor
unfolding enter_frame
enter_frame-IsBalanced plat base me i c cpu ret invoke only h =
    let e = pushed plat i me c ret cpu.sp only in
    let e' = pushed plat i me c (i.heap c).function_address cpu.sp only in
    elim (Bool-cases (traps (i.heap c) invoke)) [
      | inl trap ↦
          rw (trap, traps)
            (enter_trapped-IsBalanced base me i c e (enter_calls plat me i c cpu e invoke) refl h)
      | inr go ↦
          rw (go, traps)
            (enter_untrapped-IsBalanced base me i c ret (enter_calls plat me i c cpu e' invoke) h)
    ]

pub reap_thread-stack :
    (me : ℕ) (i : Interceptor) (reaped : Heap × List StackEntry)
    → ((reap_thread i me reaped).threads me).stack ≡ reaped.1
unfolding reap_thread
reap_thread-stack me i (heap, stack) = ground arith

pub reap_thread-IsBalanced :
    (base : ℕ → ℕ) (me : ℕ) (i : Interceptor) (reaped : Heap × List StackEntry)
    → Counts base reaped.0 reaped.1
    → IsBalanced base me (reap_thread i me reaped)
unfolding reap_thread
reap_thread-IsBalanced base me i (heap, stack) h x = ground (arith, h x)

-- Whatever way a call takes on entry, the counter of its function, and every other, stays what the
-- frames on the thread's stack make of it.
pub begin_invocation-IsBalanced :
    (plat : Platform) (base : ℕ → ℕ) (me : ℕ) (i : Interceptor) (c : ℕ) (cpu : CpuContext) (ret : ℕ)
    → IsBalanced base me i
    → IsBalanced base me (begin_invocation plat me i c cpu ret).interceptor
unfolding begin_invocation
begin_invocation-IsBalanced plat base me i c cpu ret h =
    let j = add_usage i c inc32 in
    let t = j.threads me in
    let up = inc-Counts base i c (i.threads me).stack h in
    let observed = is_observed j me in
    let only = not observed && (j.heap c).has_unignorable_listener in
    let reaped = reap_unwound j.heap t.stack cpu.sp in
    let frame =
      enter_frame-IsBalanced plat base me (reap_thread j me reaped) c cpu ret (observed || only)
        only
        (reap_thread-IsBalanced (plus base c) me j reaped
          (reap_unwound-Counts (plus base c) j.heap t.stack cpu.sp up)) in
    let P : Entered → Type 0 = λ r. IsBalanced base me r.interceptor in
    let down = dec-Counts base j c t.stack up in
    if_both P t.guard _ _ down
      (if_both P (calls_original plat j c (peek_top t.stack)) _ _ down frame)
