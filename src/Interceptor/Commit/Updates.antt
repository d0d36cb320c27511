-- ===== src/Interceptor/Commit/Updates.antt =====
-- What a commit makes of the functions: afterwards exactly those that are not destroyed are patched.
use hoox.Prelude.{
  ℕ, ◌+◌, ◌≡◌, refl, ap, ◌∙◌, ◌⊎◌, inl, inr, true, false, not, Option, some, List, [], ◌∷◌, ◌++◌,
  ◌==◌, Bool-cases, Option-cases, if◌then◌else◌, arith, ◌>>=◌,
}
use mathlib.Core.Path.{subst}
use hoox.Interceptor.{
  FunctionContext, Heap, UpdateTask, UpdateFunc, activate, deactivate, Event, write_code, update,
  Transaction, Platform,
}
use hoox.Interceptor.Commit.{
  Working, run_activate, run_deactivate, run_func, page_tasks, sort_pages, run_updates,
  apply_updates, write_pages,
}
use hoox.Interceptor.Commit.Pending.{
  hits, count, pending_count, Distinct, tasks_at, total, Present, keys, total-keys, Present-keys,
  total-sort_pages, Present-sort_pages,
}

-- How many activations `a` and deactivations `d` may wait for a context.
abbrev pub Ready : FunctionContext → ℕ → ℕ → Type 0
Ready ctx a d =
    ((a ≡ 0) × (d ≡ 0) × (ctx.activated ≡ not ctx.destroyed))
    ⊎ (((a ≡ 1) × (d ≡ 0) × (ctx.activated ≡ false))
        ⊎ ((a ≡ 0) × (d ≡ 1) × (ctx.activated ≡ true) × (ctx.destroyed ≡ true)))

-- Nothing of a context but its activation has changed.
abbrev pub Patched : Heap → Heap → Type 0
Patched heap heap' = (c : ℕ) → heap' c ≡ record (heap c) { activated = (heap' c).activated }

abbrev one_if : ℕ → ℕ → ℕ
one_if c x = if c == x then 1 else 0

-- A step that comes back and leaves this much waiting.
abbrev pub Goes : (ℕ → ℕ) → (ℕ → ℕ) → Heap → Option Working → Type 0
Goes a d heap result =
    (s : Working) × (result ≡ some s) × ((c : ℕ) → Ready (s.0 c) (a c) (d c)) × Patched heap s.0

run_activate_lem :
    (c : ℕ) (a d : ℕ → ℕ) (heap : Heap) (log : List Event)
    → ((x : ℕ) → Ready (heap x) (one_if c x + a x) (d x))
    → Goes a d heap (run_activate c (heap, log))
unfolding run_activate
run_activate_lem c a d heap log h = elim (Bool-cases (heap c).destroyed) [
  | inl gone ↦ ((heap, log), ground arith, λ x. ground (arith, h x, h c), λ x. refl)
  | inr alive ↦
      let off : (heap c).activated ≡ false = ground (arith, h c) in
      (
        (update heap c (record (heap c) { activated = true }), log ++ write_code c activate ∷ []),
        ground arith,
        λ x. ground (arith, h x, h c),
        λ x. ground arith,
      )
]

run_deactivate_lem :
    (c : ℕ) (a d : ℕ → ℕ) (heap : Heap) (log : List Event)
    → ((x : ℕ) → Ready (heap x) (a x) (one_if c x + d x))
    → Goes a d heap (run_deactivate c (heap, log))
unfolding run_deactivate
run_deactivate_lem c a d heap log h =
    let on : (heap c).activated ≡ true = ground (arith, h c) in
    (
      (update heap c (record (heap c) { activated = false }), log ++ write_code c deactivate ∷ []),
      ground arith,
      λ x. ground (arith, h x, h c),
      λ x. ground arith,
    )

run_func_lem :
    (f : UpdateFunc) (c : ℕ) (a d : ℕ → ℕ) (s : Working)
    → ((x : ℕ) → Ready (s.0 x) (hits activate x f c + a x) (hits deactivate x f c + d x))
    → Goes a d s.0 (run_func f c s)
unfolding run_func hits
run_func_lem activate c a d (heap, log) h =
    run_activate_lem c a d heap log (λ x. ground (arith, h x))
run_func_lem deactivate c a d (heap, log) h =
    run_deactivate_lem c a d heap log (λ x. ground (arith, h x))

Patched-trans : (h h' h'' : Heap) → Patched h h' → Patched h' h'' → Patched h h''
Patched-trans h h' h'' p q x =
    q x ∙ ap {A = FunctionContext} (λ ctx. record ctx { activated = (h'' x).activated }) (p x)

-- One part of the work after another.
Goes-bind :
    (a d b e : ℕ → ℕ) (heap : Heap) (m : Option Working) (f : Working → Option Working)
    → Goes a d heap m
    → ((s : Working) → ((x : ℕ) → Ready (s.0 x) (a x) (d x)) → Goes b e s.0 (f s))
    → Goes b e heap (m >>= f)
Goes-bind a d b e heap m f (s, runs, ready, same) k =
    let (s', runs', ready', same') = k s ready in
    (s', ap (λ o. o >>= f) runs ∙ runs', ready', Patched-trans heap s.0 s'.0 same same')

run_updates_lem :
    (tasks : List UpdateTask) (a d : ℕ → ℕ) (s : Working)
    → ((x : ℕ) → Ready (s.0 x) (count activate x tasks + a x) (count deactivate x tasks + d x))
    → Goes a d s.0 (run_updates tasks s)
unfolding run_updates count
run_updates_lem [] a d s h = (s, refl, λ x. ground (arith, h x), λ x. refl)
run_updates_lem (u ∷ tasks) a d s h =
    let a' : ℕ → ℕ = λ x. count activate x tasks + a x in
    let d' : ℕ → ℕ = λ x. count deactivate x tasks + d x in
    Goes-bind a' d' a d s.0 (run_func u.func u.ctx s) (run_updates tasks)
      (run_func_lem u.func u.ctx a' d' s (λ x. ground (arith, h x)))
      (λ s' h'. run_updates_lem tasks a d s' h')

apply_updates_lem :
    (pending : List (ℕ × List UpdateTask)) (pages : List ℕ) (s : Working)
    → Present pending pages
    → ((x : ℕ) → Ready (s.0 x) (total activate x pending pages) (total deactivate x pending pages))
    → Goes (λ x. 0) (λ x. 0) s.0 (apply_updates pending pages s)
unfolding apply_updates total
apply_updates_lem pending [] s here h = (s, refl, h, λ x. refl)
apply_updates_lem pending (page ∷ pages) s here h = elim (Option-cases (page_tasks pending page)) [
  | inl missing ↦ absurd (here.0 missing)
  | inr (tasks, found) ↦
      let a : ℕ → ℕ = λ x. total activate x pending pages in
      let d : ℕ → ℕ = λ x. total deactivate x pending pages in
      let at : tasks_at pending page ≡ tasks = rw (found, tasks_at) refl in
      let Q : List UpdateTask → Type 0 =
        λ ts. (x : ℕ) → Ready (s.0 x) (count activate x ts + a x) (count deactivate x ts + d x) in
      rw found (
        Goes-bind a d (λ x. 0) (λ x. 0) s.0 (run_updates tasks s) (apply_updates pending pages)
          (run_updates_lem tasks a d s (subst Q at h))
          (λ s' h'. apply_updates_lem pending pages s' here.1 h'))
]

-- All pages written: nothing waits any more.
pub write_pages_lem :
    (plat : Platform) (t : Transaction) (s : Working)
    → ((pages : List ℕ) → plat.patch_code_pages pages ≡ true)
    → Distinct t.pending_update_tasks
    → ((x : ℕ)
        → Ready
            (s.0 x)
            (pending_count activate x t.pending_update_tasks)
            (pending_count deactivate x t.pending_update_tasks))
    → Goes (λ x. 0) (λ x. 0) s.0 (write_pages plat t s)
unfolding write_pages
write_pages_lem plat t s patches distinct h =
    let pending = t.pending_update_tasks in
    let pages = sort_pages (keys pending) in
    let sum : (f : UpdateFunc) (x : ℕ) → total f x pending pages ≡ pending_count f x pending =
      λ f x. total-sort_pages f x pending (keys pending) ∙ total-keys f x pending distinct in
    Goes-bind (λ x. 0) (λ x. 0) (λ x. 0) (λ x. 0) s.0 (apply_updates pending pages s) _
      (apply_updates_lem pending pages s
        (Present-sort_pages pending (keys pending) (Present-keys pending))
        (λ x. ground (arith, h x, sum activate x, sum deactivate x)))
      (λ s' h'. (s', ground (arith, patches pages), h', λ x. refl))
