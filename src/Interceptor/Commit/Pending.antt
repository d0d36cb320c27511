-- ===== src/Interceptor/Commit/Pending.antt =====
-- The update tasks that wait, counted for each context, whatever page they wait for.
use hoox.Prelude.{
  ℕ, ◌+◌, ◌≡◌, ◌≢◌, refl, ◌==◌, Bool, true, false, inl, inr, none, some, List, [], ◌∷◌, ◌++◌,
  if◌then◌else◌, arith, ◌-◌, if_both, Bool-cases, map,
}
use hoox.Interceptor.{
  FunctionContext, Transaction, Platform, UpdateTask, UpdateFunc, activate, deactivate,
}
use hoox.Interceptor.Commit.{
  page_tasks, add_tasks, schedule_update, page_address_from_pointer, insert_page, sort_pages,
  page_before,
}

same_func : UpdateFunc → UpdateFunc → Bool
same_func activate activate = true
same_func deactivate deactivate = true
same_func activate deactivate = false
same_func deactivate activate = false

-- A task that runs `g` for the context `c`, as one that runs `f` for the context `x`.
unfoldable pub hits : UpdateFunc → ℕ → UpdateFunc → ℕ → ℕ
unfolding same_func
hits f x g c = if c == x then (if same_func g f then 1 else 0) else 0

-- The tasks of a list that run `f` for the context.
unfoldable pub count : UpdateFunc → ℕ → List UpdateTask → ℕ
unfolding hits
count f c [] = 0
count f c (u ∷ tasks) = hits f c u.func u.ctx + count f c tasks

unfoldable pub pending_count : UpdateFunc → ℕ → List (ℕ × List UpdateTask) → ℕ
unfolding count
pending_count f c [] = 0
pending_count f c ((p, tasks) ∷ pages) = count f c tasks + pending_count f c pages

-- No page has two entries.
abbrev pub Distinct : List (ℕ × List UpdateTask) → Type 0
Distinct [] = Unit {0}
Distinct ((p, tasks) ∷ pages) = (page_tasks pages p ≡ none) × Distinct pages

unfoldable pub tasks_at : List (ℕ × List UpdateTask) → ℕ → List UpdateTask
tasks_at pending page = elim (page_tasks pending page) [ none ↦ [] | some tasks ↦ tasks ]

-- The tasks of the pages of a list, in the order in which they are applied.
unfoldable pub total : UpdateFunc → ℕ → List (ℕ × List UpdateTask) → List ℕ → ℕ
unfolding tasks_at
total f c pending [] = 0
total f c pending (page ∷ pages) = count f c (tasks_at pending page) + total f c pending pages

abbrev pub Present : List (ℕ × List UpdateTask) → List ℕ → Type 0
Present pending [] = Unit {0}
Present pending (page ∷ pages) = (page_tasks pending page ≢ none) × Present pending pages

abbrev pub keys : List (ℕ × List UpdateTask) → List ℕ
keys = map (λ p. p.0)

count-append :
    (f : UpdateFunc) (c : ℕ) (xs ys : List UpdateTask)
    → count f c (xs ++ ys) ≡ count f c xs + count f c ys
unfolding count
count-append f c [] ys = omega arith
count-append f c (x ∷ xs) ys = omega (arith, count-append f c xs ys)

pub pending_count-add_tasks :
    (f : UpdateFunc) (c : ℕ) (pending : List (ℕ × List UpdateTask)) (page : ℕ)
    (new : List UpdateTask)
    → pending_count f c (add_tasks pending page new) ≡ pending_count f c pending + count f c new
unfolding pending_count add_tasks
pending_count-add_tasks f c [] page new = omega arith
pending_count-add_tasks f c ((p, tasks) ∷ pages) page new =
    ground (arith, count-append f c tasks new, pending_count-add_tasks f c pages page new)

page_tasks-add_tasks :
    (pending : List (ℕ × List UpdateTask)) (page : ℕ) (new : List UpdateTask) (q : ℕ)
    → q ≢ page
    → page_tasks pending q ≡ none
    → page_tasks (add_tasks pending page new) q ≡ none
unfolding page_tasks add_tasks
page_tasks-add_tasks [] page new q other h = ground arith
page_tasks-add_tasks ((p, tasks) ∷ pages) page new q other h =
    ground (arith, page_tasks-add_tasks pages page new q other)

pub add_tasks-Distinct :
    (pending : List (ℕ × List UpdateTask)) (page : ℕ) (new : List UpdateTask)
    → Distinct pending
    → Distinct (add_tasks pending page new)
unfolding add_tasks page_tasks
add_tasks-Distinct [] page new h = (refl, tt)
add_tasks-Distinct ((p, tasks) ∷ pages) page new h = elim (Bool-cases (p == page)) [
  | inl here ↦ rw here h
  | inr there ↦ rw there (
    page_tasks-add_tasks pages page new p (ground arith) h.0,
    add_tasks-Distinct pages page new h.1,
  )
]

total-skip :
    (f : UpdateFunc) (c p : ℕ) (tasks : List UpdateTask) (pending : List (ℕ × List UpdateTask))
    (pages : List (ℕ × List UpdateTask))
    → page_tasks pages p ≡ none
    → total f c ((p, tasks) ∷ pending) (keys pages) ≡ total f c pending (keys pages)
unfolding total page_tasks
total-skip f c p tasks pending [] h = refl
total-skip f c p tasks pending ((q, more) ∷ pages) h =
    ground (arith, total-skip f c p tasks pending pages)

pub total-keys :
    (f : UpdateFunc) (c : ℕ) (pending : List (ℕ × List UpdateTask))
    → Distinct pending
    → total f c pending (keys pending) ≡ pending_count f c pending
unfolding total pending_count page_tasks
total-keys f c [] h = refl
total-keys f c ((p, tasks) ∷ pages) h =
    ground (arith, total-keys f c pages h.1, total-skip f c p tasks pages pages h.0)

Present-skip :
    (p : ℕ) (tasks : List UpdateTask) (pending : List (ℕ × List UpdateTask)) (pages : List ℕ)
    → Present pending pages
    → Present ((p, tasks) ∷ pending) pages
unfolding page_tasks
Present-skip p tasks pending [] h = tt
Present-skip p tasks pending (q ∷ pages) h =
    (ground (arith, h.0), Present-skip p tasks pending pages h.1)

pub Present-keys : (pending : List (ℕ × List UpdateTask)) → Present pending (keys pending)
unfolding page_tasks
Present-keys [] = tt
Present-keys ((p, tasks) ∷ pages) =
    (ground arith, Present-skip p tasks pages (keys pages) (Present-keys pages))

-- Sorting leaves the same pages.
total-insert_page :
    (f : UpdateFunc) (c : ℕ) (pending : List (ℕ × List UpdateTask)) (a : ℕ) (pages : List ℕ)
    → total f c pending (insert_page a pages) ≡ total f c pending (a ∷ pages)
unfolding total insert_page
total-insert_page f c pending a [] = refl
total-insert_page f c pending a (b ∷ pages) = elim (Bool-cases (page_before b a)) [
  | inl after ↦ rw after (omega (arith, total-insert_page f c pending a pages))
  | inr before ↦ rw before refl
]

pub total-sort_pages :
    (f : UpdateFunc) (c : ℕ) (pending : List (ℕ × List UpdateTask)) (pages : List ℕ)
    → total f c pending (sort_pages pages) ≡ total f c pending pages
unfolding total sort_pages
total-sort_pages f c pending [] = refl
total-sort_pages f c pending (a ∷ pages) =
    omega (
      arith,
      total-insert_page f c pending a (sort_pages pages),
      total-sort_pages f c pending pages,
    )

Present-insert_page :
    (pending : List (ℕ × List UpdateTask)) (a : ℕ) (pages : List ℕ)
    → Present pending (a ∷ pages)
    → Present pending (insert_page a pages)
unfolding insert_page
Present-insert_page pending a [] h = h
Present-insert_page pending a (b ∷ pages) h = elim (Bool-cases (page_before b a)) [
  | inl after ↦ rw after (h.1.0, Present-insert_page pending a pages (h.0, h.1.1))
  | inr before ↦ rw before h
]

pub Present-sort_pages :
    (pending : List (ℕ × List UpdateTask)) (pages : List ℕ)
    → Present pending pages
    → Present pending (sort_pages pages)
unfolding sort_pages
Present-sort_pages pending [] h = tt
Present-sort_pages pending (a ∷ pages) h =
    Present-insert_page pending a (sort_pages pages) (h.0, Present-sort_pages pending pages h.1)

-- A task that is scheduled is one task more, whether or not the prologue crosses into another page.
pub schedule_update-count :
    (plat : Platform) (t : Transaction) (c : ℕ) (ctx : FunctionContext) (g : UpdateFunc)
    (f : UpdateFunc) (x : ℕ)
    → pending_count f x (schedule_update plat t c ctx g).pending_update_tasks
      ≡ pending_count f x t.pending_update_tasks + hits f x g c
unfolding schedule_update count
schedule_update-count plat t c ctx g f x =
    let start = page_address_from_pointer plat ctx.function_address in
    let last =
      page_address_from_pointer plat (ctx.function_address + ctx.overwritten_prologue_len - 1) in
    let new : List UpdateTask = record { ctx = c; func = g } ∷ [] in
    let pages = add_tasks t.pending_update_tasks start new in
    let one = pending_count-add_tasks f x t.pending_update_tasks start new in
    if_both (λ p. pending_count f x p ≡ pending_count f x t.pending_update_tasks + hits f x g c)
      (last == start) _ _ (omega (arith, one))
      (omega (arith, one, pending_count-add_tasks f x pages last []))

pub schedule_update-Distinct :
    (plat : Platform) (t : Transaction) (c : ℕ) (ctx : FunctionContext) (g : UpdateFunc)
    → Distinct t.pending_update_tasks
    → Distinct (schedule_update plat t c ctx g).pending_update_tasks
unfolding schedule_update
schedule_update-Distinct plat t c ctx g h =
    let start = page_address_from_pointer plat ctx.function_address in
    let last =
      page_address_from_pointer plat (ctx.function_address + ctx.overwritten_prologue_len - 1) in
    let new : List UpdateTask = record { ctx = c; func = g } ∷ [] in
    let one = add_tasks-Distinct t.pending_update_tasks start new h in
    if_both Distinct (last == start) _ _ one
      (add_tasks-Distinct (add_tasks t.pending_update_tasks start new) last [] one)
