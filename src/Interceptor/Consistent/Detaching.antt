-- ===== src/Interceptor/Consistent/Detaching.antt =====
-- Detaching: hoox_interceptor_detach comes back, and the listener is on no function any more.
use hoox.Prelude.{
  ℕ, ◌≡◌, ◌≢◌, refl, ap, ◌∙◌, ◌⊎◌, inl, inr, Bool, true, false, ◌==◌, Option, none, some, List, [],
  ◌∷◌, arith, Bool-cases, if_each, ◌>>=◌, length,
}
use mathlib.Core.Path.{subst}
use hoox.Interceptor.{ListenerEntry, Listener, Interceptor, Platform}
use hoox.Interceptor.Listeners.{has_listener, clear_slots, without_listener, remove_listener}
use hoox.Interceptor.Instrument.{lookup, begin, drop_empty, with_transaction}
use hoox.Interceptor.Threads.{ignore_current_thread, unignore_current_thread}
use hoox.Interceptor.Commit.{schedule_destroy}
use hoox.Interceptor.Attach.{
  take_listener, give_back, publish, detach_from, detach_all, forget_everywhere, detach,
}
use hoox.Interceptor.Consistent.{Unique, IsConsistent}
use hoox.Interceptor.Consistent.Parts.{store-Consistent}
use hoox.Interceptor.Consistent.Ending.{Answers, transaction_end-IsConsistent}
use hoox.Interceptor.Consistent.Operations.{IsReliable}
use hoox.Interceptor.Consistent.Replacing.{drop_empty-IsConsistent}

length-clear_slots :
    (slots : List (Option ListenerEntry)) (l : Listener)
    → length (clear_slots slots l) ≡ length slots
unfolding clear_slots
length-clear_slots [] l = refl
length-clear_slots (slot ∷ slots) l = omega (arith, length-clear_slots slots l)

has_listener-clear_slots :
    (slots : List (Option ListenerEntry)) (l : Listener)
    → has_listener (clear_slots slots l) l ≡ false
unfolding clear_slots has_listener
has_listener-clear_slots [] l = refl
has_listener-clear_slots (none ∷ slots) l = has_listener-clear_slots slots l
has_listener-clear_slots (some e ∷ slots) l = ground (arith, has_listener-clear_slots slots l)

-- Whether the listener is on a context.
abbrev has_at : Interceptor → Listener → ℕ → Bool
has_at i l x = has_listener (i.heap x).listener_entries l

-- The listener is gone from the context `c`, and elsewhere things are as they were.
abbrev Cleared : Listener → ℕ → Interceptor → Interceptor → Type 0
Cleared l c i j = (has_at j l c ≡ false) × ((x : ℕ) → has_at i l x ≡ false → has_at j l x ≡ false)

take_listener_lem :
    (i : Interceptor) (c : ℕ) (l : Listener)
    → has_at i l c ≡ true
    → IsConsistent i
    → Answers
        (take_listener i c l)
        (λ j. Cleared l c i j × (j.function_by_address ≡ i.function_by_address))
unfolding take_listener remove_listener without_listener give_back with_transaction publish
    schedule_destroy
take_listener_lem i c l on h =
    let entries = (i.heap c).listener_entries in
    let ctx = without_listener (i.heap c) l in
    (
      give_back i c l ctx,
      rw (on, remove_listener) refl,
      store-Consistent i.function_by_address i.heap i.next_ctx
          i.current_transaction.pending_update_tasks c ctx refl refl refl
          (ground (arith, length-clear_slots entries l, h.bounded c)) h,
      (
        (
          ground (arith, has_listener-clear_slots entries l),
          λ x off. ground (arith, has_listener-clear_slots entries l),
        ),
        refl,
      ),
    )

-- The loop's body, at an entry of the table.
abbrev Visited : Listener → ℕ → ℕ → Interceptor → Interceptor → Type 0
Visited l a c i j =
    Cleared l c i j
    × ((b : ℕ) → a ≢ b → lookup j.function_by_address b ≡ lookup i.function_by_address b)

detach_from_lem :
    (plat : Platform) (i : Interceptor) (a c : ℕ) (l : Listener)
    → lookup i.function_by_address a ≡ some c
    → IsConsistent i
    → Answers (detach_from plat i a c l) (Visited l a c i)
unfolding detach_from
detach_from_lem plat i a c l at h =
    if_each (λ (o : Option Interceptor). Answers o (Visited l a c i)) (has_at i l c) _ _
      (λ on.
        let (j, takes, kept, ((gone, others), table)) = take_listener_lem i c l on h in
        let (k, drops, still, (entries, same)) =
          drop_empty-IsConsistent plat j a c (ap (λ t. lookup t a) table ∙ at) kept in
        (
          k,
          ap (λ o. o >>= λ z. drop_empty plat z a c) takes ∙ drops,
          still,
          (
            (
              ap (λ e. has_listener e l) (entries c) ∙ gone,
              λ x off. ap (λ e. has_listener e l) (entries x) ∙ others x off,
            ),
            λ b other. same b other ∙ ap (λ t. lookup t b) table,
          ),
        ))
      (λ off. (i, refl, h, ((off, λ x o. o), λ b other. refl)))

-- The contexts of a part of the table.
abbrev Covered : ℕ → List (ℕ × ℕ) → Type 0
Covered x [] = ⊥
Covered x ((a, c) ∷ table) = (c ≡ x) ⊎ Covered x table

-- The entries of a part of the table that are still in the table.
abbrev AreIn : Interceptor → List (ℕ × ℕ) → Type 0
AreIn i [] = Unit {0}
AreIn i ((a, c) ∷ table) = (lookup i.function_by_address a ≡ some c) × AreIn i table

AreIn-keep :
    (i j : Interceptor) (a : ℕ) (table : List (ℕ × ℕ))
    → ((b : ℕ) → a ≢ b → lookup j.function_by_address b ≡ lookup i.function_by_address b)
    → lookup table a ≡ none
    → AreIn i table
    → AreIn j table
unfolding lookup
AreIn-keep i j a [] same new h = tt
AreIn-keep i j a ((b, c) ∷ table) same new h =
    (same b (ground arith) ∙ h.0, AreIn-keep i j a table same (ground arith) h.1)

detach_all_lem :
    (plat : Platform) (i : Interceptor) (table : List (ℕ × ℕ)) (l : Listener)
    → Unique table
    → AreIn i table
    → IsConsistent i
    → Answers (detach_all plat i table l) (λ j.
      ((x : ℕ) → has_at i l x ≡ false → has_at j l x ≡ false)
      × ((x : ℕ) → Covered x table → has_at j l x ≡ false))
unfolding detach_all
detach_all_lem plat i [] l unique inside h = (i, refl, h, (λ x off. off, λ x here. absurd here))
detach_all_lem plat i ((a, c) ∷ table) l unique inside h =
    let (j, visits, kept, ((gone, others), same)) = detach_from_lem plat i a c l inside.0 h in
    let (k, goes, still, (stay, leave)) =
      detach_all_lem plat j table l unique.1 (AreIn-keep i j a table same unique.0 inside.1) kept in
    (
      k,
      ap (λ o. o >>= λ z. detach_all plat z table l) visits ∙ goes,
      still,
      (
        λ x off. stay x (others x off),
        λ x here. elim here [
          | inl this ↦ stay x (subst (λ y. has_at j l y ≡ false) this gone)
          | inr rest ↦ leave x rest
        ],
      ),
    )

AreIn-self :
    (i : Interceptor) (table : List (ℕ × ℕ))
    → Unique table
    → ((b d : ℕ) → lookup table b ≡ some d → lookup i.function_by_address b ≡ some d)
    → AreIn i table
unfolding lookup
AreIn-self i [] unique h = tt
AreIn-self i ((a, c) ∷ table) unique h =
    (h a c (ground arith), AreIn-self i table unique.1 (λ b d at. h b d (ground (arith, unique.0))))

lookup-Covered : (table : List (ℕ × ℕ)) (a x : ℕ) → lookup table a ≡ some x → Covered x table
unfolding lookup
lookup-Covered [] a x h = cc
lookup-Covered ((b, c) ∷ table) a x h = elim (Bool-cases (b == a)) [
  | inl here ↦ inl (ground arith)
  | inr there ↦ inr (lookup-Covered table a x (ground arith))
]

-- From a consistent interceptor, where pages can be patched and the backend leaves the
-- interceptor's own fields alone and no slice in a context that it refuses, hoox_interceptor_detach
-- comes back, no assertion on its way fails, the interceptor is consistent, and no function that
-- was instrumented has the listener any more.
pub detach_forgets :
    (plat : Platform) (me : ℕ) (i : Interceptor) (l : Listener)
    → IsReliable plat
    → IsConsistent i
    → (j : Interceptor) × (detach plat me i l ≡ some j)
      × IsConsistent j
      × ((x : ℕ)
          → (i.heap x).destroyed ≡ false
          → has_listener (j.heap x).listener_entries l ≡ false)
unfolding detach begin ignore_current_thread unignore_current_thread forget_everywhere
detach_forgets plat me i l sure h =
    let start = begin (ignore_current_thread i me) in
    let table = i.function_by_address in
    let (k, goes, kept, (stay, leave)) =
      detach_all_lem plat start table l h.unique (AreIn-self start table h.unique (λ b d at. at))
        h in
    let (done, runs, still, (listing, entries, settled)) =
      transaction_end-IsConsistent plat me (forget_everywhere k l) sure.patches kept in
    (
      unignore_current_thread done me,
      rw (goes, runs),
      still,
      λ x alive.
          ap (λ e. has_listener e l) (entries x)
          ∙ leave x (lookup-Covered table (i.heap x).function_address x (h.known x alive)),
    )
