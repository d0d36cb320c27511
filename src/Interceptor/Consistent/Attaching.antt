-- ===== src/Interceptor/Consistent/Attaching.antt =====
-- What each answer of hoox_interceptor_attach says.
use mathlib.Core.Path.{subst}
use hoox.Prelude.{
  if_both, ℕ, ◌≤◌, ◌≡◌, refl, ap, ◌∙◌, ◌++◌, Bool, true, false, Option, none, some, List, [], ◌∷◌,
  leb, arith, if_each, if◌then◌else◌,
}
use hoox.Interceptor.{
  Equipped, equipped, unequipped, ListenerEntry, Interceptor, InterceptorType, Platform, Options,
  default_type, Listener, max_listeners_per_function,
}
use hoox.Interceptor.Instrument.{
  InstrumentationError, wrong_type, Instrumented, instrumented, refused, lookup, resolve, begin,
  equip, enter_context, instrument_found, instrument, make_trampoline, function_context_new,
  effective_options, same_type,
}
use hoox.Interceptor.Listeners.{
  add_listener, count_listeners, has_listener, is_of, compact, new_entry,
}
use hoox.Interceptor.Threads.{ignore_current_thread, unignore_current_thread}
use hoox.Interceptor.Attach.{
  attach, attach_to, attach_instrumented, publish, AttachReturn, attach_ok, already_attached,
  too_many_listeners, attach_failed,
}
use hoox.Interceptor.Consistent.{IsConsistent}
use hoox.Interceptor.Consistent.Operations.{
  IsReliable, instrument-IsConsistent, attach_instrumented-IsConsistent,
}
use hoox.Interceptor.Consistent.Ending.{transaction_end-IsConsistent}

abbrev Slots : Type 0
Slots = ℕ → List (Option ListenerEntry)

abbrev slots : Interceptor → Slots
slots i c = (i.heap c).listener_entries

-- By the answer: the function at `a` is in the table and has the listener; or it is in there, has as
-- many others as there may be, and not this one; or the table is as it was.
abbrev pub Attached : List (ℕ × ℕ) → ℕ → Listener → List (ℕ × ℕ) → Slots → AttachReturn → Type 0
Attached before a l table s attach_ok =
    (c : ℕ) × (lookup table a ≡ some c) × (has_listener (s c) l ≡ true)
Attached before a l table s already_attached =
    (c : ℕ) × (lookup table a ≡ some c) × (has_listener (s c) l ≡ true)
Attached before a l table s too_many_listeners =
    (c : ℕ) × (lookup table a ≡ some c)
    × (has_listener (s c) l ≡ false)
    × (max_listeners_per_function ≤ count_listeners (s c))
Attached before a l table s (attach_failed e) = table ≡ before

Attached-kept :
    (before : List (ℕ × ℕ)) (a : ℕ) (l : Listener) (table table' : List (ℕ × ℕ)) (s s' : Slots)
    (r : AttachReturn)
    → table' ≡ table
    → ((c : ℕ) → s' c ≡ s c)
    → Attached before a l table s r
    → Attached before a l table' s' r
Attached-kept before a l table table' s s' attach_ok same each (c, at, has) =
    (c, ap (λ t. lookup t a) same ∙ at, ap (λ e. has_listener e l) (each c) ∙ has)
Attached-kept before a l table table' s s' already_attached same each (c, at, has) =
    (c, ap (λ t. lookup t a) same ∙ at, ap (λ e. has_listener e l) (each c) ∙ has)
Attached-kept before a l table table' s s' too_many_listeners same each (c, at, has, full) = (
  c,
  ap (λ t. lookup t a) same ∙ at,
  ap (λ e. has_listener e l) (each c) ∙ has,
  ground (arith, each c),
)
Attached-kept before a l table table' s s' (attach_failed e) same each h = same ∙ h

-- What instrument hands out is in the table; where it refuses, the table is as it was.
abbrev Found : List (ℕ × ℕ) → ℕ → Interceptor × Instrumented → Type 0
Found before a (i, instrumented c) = lookup i.function_by_address a ≡ some c
Found before a (i, refused e) = i.function_by_address ≡ before

abbrev AllFound : List (ℕ × ℕ) → ℕ → Option (Interceptor × Instrumented) → Type 0
AllFound before a o = (r : Interceptor × Instrumented) → o ≡ some r → Found before a r

AllFound-some :
    (before : List (ℕ × ℕ)) (a : ℕ) (r : Interceptor × Instrumented)
    → Found before a r
    → AllFound before a (some r)
AllFound-some before a r h s e = let same : r ≡ s = cc in subst (Found before a) same h

equip-Found :
    (plat : Platform) (i : Interceptor) (a : ℕ) (made : Equipped)
    → AllFound i.function_by_address a (equip plat i a made)
unfolding equip enter_context lookup
equip-Found plat i a (unequipped slice) =
    if_both (AllFound i.function_by_address a) slice _ _ (λ r e. cc)
      (AllFound-some i.function_by_address a (_, _) refl)
equip-Found plat i a (equipped ctx) =
    AllFound-some i.function_by_address a (enter_context plat i a ctx, instrumented i.next_ctx)
      (ground arith)

typed-Found :
    (i : Interceptor) (a c : ℕ) (same : Bool) (e : InstrumentationError)
    → lookup i.function_by_address a ≡ some c
    → Found i.function_by_address a (i, if same then instrumented c else refused e)
typed-Found i a c true e at = at
typed-Found i a c false e at = refl

instrument_found-Found :
    (plat : Platform) (i : Interceptor) (kind : InterceptorType) (a : ℕ) (options : Options)
    (found : Option ℕ)
    → lookup i.function_by_address a ≡ found
    → AllFound i.function_by_address a (instrument_found plat i kind a options found)
unfolding instrument_found
instrument_found-Found plat i kind a options (some c) at =
    AllFound-some i.function_by_address a (_, _)
      (typed-Found i a c (same_type (i.heap c).kind kind) wrong_type at)
instrument_found-Found plat i kind a options none at =
    equip-Found plat i a
      (make_trampoline plat (function_context_new a kind (effective_options options i.options)))

has_listener-last :
    (entries : List (Option ListenerEntry)) (l : Listener) (d : ℕ) (u : Bool)
    → has_listener (entries ++ some (new_entry l d u) ∷ []) l ≡ true
unfolding has_listener is_of new_entry
has_listener-last [] l d u = ground arith
has_listener-last (slot ∷ entries) l d u = ground (arith, has_listener-last entries l d u)

attach_to-Attached :
    (before : List (ℕ × ℕ)) (i : Interceptor) (a c : ℕ) (l : Listener) (d : ℕ) (u : Bool)
    → lookup i.function_by_address a ≡ some c
    → let r = attach_to i c l d u in Attached before a l r.0.function_by_address (slots r.0) r.1
unfolding attach_to publish add_listener
attach_to-Attached before i a c l d u at =
    let P : Interceptor × AttachReturn → Type 0 =
      λ r. Attached before a l r.0.function_by_address (slots r.0) r.1 in
    let entries = (i.heap c).listener_entries in
    if_each P (has_listener entries l) _ _ (λ has. (c, at, has))
      (λ new.
        if_each P (leb max_listeners_per_function (count_listeners entries)) _ _
          (λ full. (c, at, new, ground arith))
          (λ room. (c, at, ground (arith, has_listener-last (compact entries) l d u))))

attach_instrumented-Attached :
    (before : List (ℕ × ℕ)) (a : ℕ) (found : Interceptor × Instrumented) (l : Listener) (d : ℕ)
    (u : Bool)
    → Found before a found
    → let r = attach_instrumented found l d u in
      Attached before a l r.0.function_by_address (slots r.0) r.1
unfolding attach_instrumented
attach_instrumented-Attached before a (i, instrumented c) l d u at =
    attach_to-Attached before i a c l d u at
attach_instrumented-Attached before a (i, refused e) l d u same = same

-- From a consistent interceptor, where pages can be patched and the backend leaves the
-- interceptor's own fields alone and no slice in a context that it refuses, and the target resolves
-- to `a`, hoox_interceptor_attach comes back, and its answer says what is so: on HOOX_ATTACH_OK and
-- ALREADY_ATTACHED the function at `a` is in the table and has the listener; on TOO_MANY_LISTENERS
-- it is in there, has at least two others and not this one; on an error of the instrumentation the
-- table is as it was.
pub attach-answers :
    (fuel : ℕ) (plat : Platform) (me : ℕ) (i : Interceptor) (target : ℕ) (l : Listener)
    (options : Options) (function_data : ℕ) (unignorable : Bool) (a : ℕ)
    → IsReliable plat
    → resolve fuel plat (begin (ignore_current_thread i me)) target ≡ some a
    → IsConsistent i
    → (j : Interceptor) × (r : AttachReturn) × (attach fuel plat me i target l options function_data
          unignorable
        ≡ some (j, r))
      × Attached i.function_by_address a l j.function_by_address
          (λ c. (j.heap c).listener_entries)
          r
unfolding attach begin ignore_current_thread unignore_current_thread instrument
attach-answers fuel plat me i target l options d u a sure found h =
    let start = begin (ignore_current_thread i me) in
    let table = i.function_by_address in
    let (made, makes, sound) = instrument-IsConsistent plat start default_type a options sure h in
    let r = attach_instrumented made l d u in
    let has =
      attach_instrumented-Attached table a made l d u (
        instrument_found-Found plat start default_type a options (lookup table a) refl made
          makes) in
    let kept = attach_instrumented-IsConsistent made l d u sound in
    let (done, runs, still, (listing, entries, settled)) =
      transaction_end-IsConsistent plat me r.0 sure.patches kept in
    (
      unignore_current_thread done me,
      r.1,
      rw (found, makes, runs) refl,
      Attached-kept table a l r.0.function_by_address done.function_by_address (slots r.0)
          (slots done) r.1 listing entries has,
    )
