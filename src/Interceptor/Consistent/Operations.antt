-- ===== src/Interceptor/Consistent/Operations.antt =====
-- Attaching keeps the interceptor consistent, and no assertion fails.
use hoox.Prelude.{
  ◌==◌, ◌≡◌, refl, ℕ, inl, inr, Bool, true, false, ◌⊎◌, Option, none, some, List, [], ◌∷◌, arith,
  Bool-cases, if_both, if_each, length, length-append, leb,
}
use hoox.Interceptor.{
  Equipped, equipped, unequipped, FunctionContext, ListenerEntry, Interceptor, Platform, Options,
  InterceptorType, default_type, Listener, max_listeners_per_function,
}
use hoox.Interceptor.Instrument.{
  Instrumented, instrumented, refused, lookup, resolve, begin, equip, instrument_found, instrument,
  make_trampoline, function_context_new, effective_options,
}
use hoox.Interceptor.Listeners.{add_listener, compact, count_listeners, has_listener, new_entry}
use hoox.Interceptor.Threads.{ignore_current_thread, unignore_current_thread}
use hoox.Interceptor.Commit.{schedule_destroy}
use hoox.Interceptor.Attach.{attach, attach_to, attach_instrumented, publish, AttachReturn}
use hoox.Interceptor.Consistent.{IsConsistent}
use hoox.Interceptor.Consistent.Parts.{store-Consistent, enter_context-IsConsistent}
use hoox.Interceptor.Consistent.Ending.{transaction_end-IsConsistent}

-- A context that the backend has equipped: the interceptor's own fields are as they were.
abbrev pub Equips : FunctionContext → FunctionContext → Type 0
Equips ctx ctx' =
    (ctx'.function_address ≡ ctx.function_address)
    × (ctx'.destroyed ≡ ctx.destroyed)
    × (ctx'.activated ≡ ctx.activated)
    × (ctx'.listener_entries ≡ ctx.listener_entries)

-- What the interceptor relies on. The pages can be patched; the backend, where it equips a context,
-- leaves the fields that are the interceptor's own, and where it refuses one, leaves no slice in it.
pub record IsReliable (plat : Platform) : Type 0 where
  pub patches : (pages : List ℕ) → plat.patch_code_pages pages ≡ true
  pub creates :
      (ctx : FunctionContext) (force : Bool) (ctx' : FunctionContext)
      → plat.create_trampoline ctx force ≡ equipped ctx'
      → Equips ctx ctx'
  pub claims :
      (ctx ctx' : FunctionContext)
      → plat.claim_grafted_trampoline ctx ≡ equipped ctx'
      → Equips ctx ctx'
  pub cleans :
      (ctx : FunctionContext) (force trampoline_slice : Bool)
      → (plat.create_trampoline ctx force ≡ unequipped trampoline_slice)
        ⊎ (plat.claim_grafted_trampoline ctx ≡ unequipped trampoline_slice)
      → trampoline_slice ≡ false

make_trampoline_lem :
    (plat : Platform) (ctx ctx' : FunctionContext)
    → IsReliable plat
    → make_trampoline plat ctx ≡ equipped ctx'
    → Equips ctx ctx'
unfolding make_trampoline
make_trampoline_lem plat ctx ctx' sure h = elim (Bool-cases plat.code_signing_required) [
  | inl signed ↦ sure.claims ctx ctx' (ground arith)
  | inr free ↦ sure.creates ctx (ctx.options.relocation_policy == 3) ctx' (ground arith)
]

make_trampoline-cleans :
    (plat : Platform) (ctx : FunctionContext) (trampoline_slice : Bool)
    → IsReliable plat
    → make_trampoline plat ctx ≡ unequipped trampoline_slice
    → trampoline_slice ≡ false
unfolding make_trampoline
make_trampoline-cleans plat ctx slice sure h =
    let force = ctx.options.relocation_policy == 3 in
    elim (Bool-cases plat.code_signing_required) [
      | inl signed ↦ sure.cleans ctx force slice (inr (ground arith))
      | inr free ↦ sure.cleans ctx force slice (inl (ground arith))
    ]

-- The function is instrumented, or refused, with a consistent interceptor.
abbrev pub Instruments : Option (Interceptor × Instrumented) → Type 0
Instruments o = (r : Interceptor × Instrumented) × (o ≡ some r) × IsConsistent r.0

equip-IsConsistent :
    (plat : Platform) (i : Interceptor) (a : ℕ) (kind : InterceptorType) (options : Options)
    (made : Equipped)
    → lookup i.function_by_address a ≡ none
    → ((ctx : FunctionContext)
        → made ≡ equipped ctx
        → Equips (function_context_new a kind options) ctx)
    → ((trampoline_slice : Bool) → made ≡ unequipped trampoline_slice → trampoline_slice ≡ false)
    → IsConsistent i
    → Instruments (equip plat i a made)
unfolding equip function_context_new
equip-IsConsistent plat i a kind options (unequipped slice) new sure clean h =
    let none_left = clean slice refl in
    if_each Instruments slice _ _ (λ left. absurd (ground arith)) (λ no_slice. (_, refl, h))
equip-IsConsistent plat i a kind options (equipped ctx) new sure clean h =
    let (address, state, patch, entries) = sure ctx refl in
    (_, refl, enter_context-IsConsistent plat i a ctx new address state patch entries h)

instrument_found-IsConsistent :
    (plat : Platform) (i : Interceptor) (kind : InterceptorType) (a : ℕ) (options : Options)
    (found : Option ℕ)
    → lookup i.function_by_address a ≡ found
    → IsReliable plat
    → IsConsistent i
    → Instruments (instrument_found plat i kind a options found)
unfolding instrument_found
instrument_found-IsConsistent plat i kind a options (some c) at sure h = (_, refl, h)
instrument_found-IsConsistent plat i kind a options none at sure h =
    let o = effective_options options i.options in
    equip-IsConsistent plat i a kind o (make_trampoline plat (function_context_new a kind o)) at
      (λ ctx made. make_trampoline_lem plat (function_context_new a kind o) ctx sure made)
      (λ slice made. make_trampoline-cleans plat (function_context_new a kind o) slice sure made) h

pub instrument-IsConsistent :
    (plat : Platform) (i : Interceptor) (kind : InterceptorType) (a : ℕ) (options : Options)
    → IsReliable plat
    → IsConsistent i
    → Instruments (instrument plat i kind a options)
unfolding instrument
instrument-IsConsistent plat i kind a options sure h =
    instrument_found-IsConsistent plat i kind a options (lookup i.function_by_address a) refl sure h

length-compact :
    (slots : List (Option ListenerEntry)) → length (compact slots) ≡ count_listeners slots
unfolding compact count_listeners
length-compact [] = refl
length-compact (none ∷ slots) = length-compact slots
length-compact (some e ∷ slots) = omega (arith, length-compact slots)

attach_to-IsConsistent :
    (i : Interceptor) (c : ℕ) (l : Listener) (function_data : ℕ) (unignorable : Bool)
    → IsConsistent i
    → IsConsistent (attach_to i c l function_data unignorable).0
unfolding attach_to publish add_listener schedule_destroy
attach_to-IsConsistent i c l function_data unignorable h =
    let entries = (i.heap c).listener_entries in
    let P : Interceptor × AttachReturn → Type 0 = λ r. IsConsistent r.0 in
    if_both P (has_listener entries l) _ _ h (
      if_each P (leb max_listeners_per_function (count_listeners entries)) _ _ (λ full. h)
        (λ room.
          store-Consistent i.function_by_address i.heap i.next_ctx
            i.current_transaction.pending_update_tasks c
            (add_listener (i.heap c) l function_data unignorable) refl refl refl
            (ground (
              arith,
              length-compact entries,
              length-append (compact entries) (some (new_entry l function_data unignorable) ∷ []),
            ))
            h))

pub attach_instrumented-IsConsistent :
    (r : Interceptor × Instrumented) (l : Listener) (function_data : ℕ) (unignorable : Bool)
    → IsConsistent r.0
    → IsConsistent (attach_instrumented r l function_data unignorable).0
unfolding attach_instrumented
attach_instrumented-IsConsistent (i, refused e) l function_data unignorable h = h
attach_instrumented-IsConsistent (i, instrumented c) l function_data unignorable h =
    attach_to-IsConsistent i c l function_data unignorable h

-- An operation within a transaction of its own that comes back with a consistent interceptor.
abbrev pub Serves {ℓ} : {A : Type ℓ} → Option (Interceptor × A) → Type ℓ
Serves {A} result = (j : Interceptor) × (r : A) × (result ≡ some (j, r)) × IsConsistent j

pub attach-IsConsistent :
    (fuel : ℕ) (plat : Platform) (me : ℕ) (i : Interceptor) (target : ℕ) (l : Listener)
    (options : Options) (function_data : ℕ) (unignorable : Bool) (a : ℕ)
    → IsReliable plat
    → resolve fuel plat (begin (ignore_current_thread i me)) target ≡ some a
    → IsConsistent i
    → Serves (attach fuel plat me i target l options function_data unignorable)
unfolding attach begin ignore_current_thread unignore_current_thread
attach-IsConsistent fuel plat me i target l options function_data unignorable a sure found h =
    let j = begin (ignore_current_thread i me) in
    let (at, makes, sound) = instrument-IsConsistent plat j default_type a options sure h in
    let r = attach_instrumented at l function_data unignorable in
    let kept = attach_instrumented-IsConsistent at l function_data unignorable sound in
    let (done, runs, still, ended) = transaction_end-IsConsistent plat me r.0 sure.patches kept in
    (unignore_current_thread done me, r.1, rw (found, makes, runs), still)
