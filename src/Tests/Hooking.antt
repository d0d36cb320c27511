-- ===== src/Tests/Hooking.antt =====
-- The interceptor at concrete inputs: attaching, detaching, transactions, flushes and forks.
use hoox.Interceptor.Fork.{recover_from_fork_in_child}
use hoox.Interceptor.Fork.Repaired.{recover_counts}
use hoox.Interceptor.Consistent.Forking.{fork_flushes}
use hoox.Interceptor.Consistent.Attaching.{Attached, attach-answers}
use mathlib.Core.List.{Memᴰ}
use hoox.Prelude.{
  ℕ, ◌+◌, ◌≡◌, refl, inl, inr, ◌⊎◌, Bool, true, false, ◌==◌, Option, none, some, List, [], ◌∷◌,
  if◌then◌else◌, arith,
}
use hoox.Interceptor.{
  Equipped, equipped, unequipped, CpuContext, FunctionContext, Interceptor, Listener, Platform,
  unref_entries, unref_listener, DestroyTask, run_task,
}
use hoox.Interceptor.Listeners.{
  has_listener, count_listeners, add_listener, remove_listener, is_empty,
}
use hoox.Interceptor.Threads.{ignore_current_thread, unignore_current_thread, forget_listener_data}
use hoox.Interceptor.Instrument.{lookup}
use hoox.Interceptor.Attach.{AttachReturn, attach_ok, attach, detach}
use hoox.Interceptor.Flush.{
  begin_transaction, end_transaction, interceptor_init, default_options, flush, no_task,
}
use hoox.Interceptor.Invocation.{begin_invocation}
use hoox.Interceptor.Commit.{
  drain, transaction_init, transaction_end, schedule_destroy, schedule_update,
}
use hoox.Interceptor.Commit.Draining.{keep_if, in_use, destroying, drain_frees_early}
use hoox.Interceptor.Consistent.{IsConsistent}
use hoox.Interceptor.Consistent.Operations.{IsReliable, Equips}
use hoox.Interceptor.Consistent.Detaching.{detach_forgets}
use hoox.Interceptor.Consistent.Reached.{
  Reached, start, later, beginning, attaching, detaching, entering, Reached-IsConsistent,
}
use hoox.Interceptor.Consistent.Settled.{ended_patches}
use hoox.Interceptor.Consistent.Flushing.{flush_lem}

equip_test : FunctionContext → Equipped
equip_test ctx = equipped (record ctx {
  on_invoke_trampoline = ctx.function_address + 0x100000;
  on_leave_trampoline = ctx.function_address + 0x200000;
  overwritten_prologue_len = 16;
})

-- Pages of 4 KiB, no redirects, callbacks that change nothing, and counters that stand still.
unfoldable pub machine : Platform
unfolding equip_test
machine = record {
  page_size = 0x1000;
  code_signing_required = false;
  strip_code_pointer = λ a. a;
  sign_code_pointer = λ a. a;
  resolve_redirect = λ a. none;
  create_trampoline = λ ctx force. equip_test ctx;
  claim_grafted_trampoline = λ ctx. unequipped false;
  patch_code_pages = λ pages. true;
  usage = λ k c v. v;
  entered = λ e s. s;
  left = λ e s. s;
}

machine-Equips : (ctx ctx' : FunctionContext) → equip_test ctx ≡ equipped ctx' → Equips ctx ctx'
unfolding equip_test
machine-Equips ctx ctx' h = (ground arith, ground arith, ground arith, ground arith)

machine-cleans :
    (ctx : FunctionContext) (slice : Bool)
    → (equip_test ctx ≡ unequipped slice) ⊎ (unequipped false ≡ unequipped slice)
    → slice ≡ false
unfolding equip_test
machine-cleans ctx slice (inl h) = cc
machine-cleans ctx slice (inr h) = cc

machine-IsReliable : IsReliable machine
unfolding machine
machine-IsReliable = record {
  patches = λ pages. refl;
  creates = λ ctx force ctx' h. machine-Equips ctx ctx' h;
  claims = λ ctx ctx' h. cc;
  cleans = λ ctx force slice h. machine-cleans ctx slice h;
}

abbrev pub watcher : Listener
watcher = record { instance_address = 0x7000; has_on_enter = true; has_on_leave = true }

state_of : Option (Interceptor × AttachReturn) → Interceptor
state_of none = interceptor_init
state_of (some (i, r)) = i

-- A listener is attached to a function at 0x4ff8, whose prologue crosses into the next page, while
-- a transaction is open.
opened : Interceptor
opened = begin_transaction interceptor_init

hooked : Interceptor
unfolding state_of attach opened machine begin_transaction interceptor_init ignore_current_thread
    unignore_current_thread transaction_end has_listener count_listeners schedule_destroy
    schedule_update
hooked = state_of (attach 2 machine 9 opened 0x4ff8 watcher default_options 0 false)

attach-hooked :
    attach 2 machine 9 opened 0x4ff8 watcher default_options 0 false ≡ some (hooked, attach_ok)
unfolding hooked
attach-hooked = refl

hooked_reached : Reached machine hooked
unfolding opened
hooked_reached =
    later 9 (later 9 start beginning)
      (attaching 2 0x4ff8 watcher default_options 0 false attach_ok attach-hooked)

Reached-IsConsistent_example : IsConsistent hooked
Reached-IsConsistent_example = Reached-IsConsistent machine-IsReliable hooked_reached

ended_patches_example :
    (j : Interceptor) × (end_transaction machine 9 hooked ≡ some j)
    × (j.function_by_address ≡ hooked.function_by_address)
    × ((a c : ℕ) → lookup j.function_by_address a ≡ some c → (j.heap c).activated ≡ true)
    × ((c : ℕ)
        → (j.heap c).activated ≡ true
        → lookup j.function_by_address (j.heap c).function_address ≡ some c)
unfolding hooked
ended_patches_example = ended_patches 9 machine-IsReliable hooked_reached refl refl

-- Outside of a transaction: the listener is attached, a thread calls the function, and while it is
-- in there the listener is detached; then the thread leaves.
patched : Interceptor
unfolding hooked add_listener
patched = state_of (attach 2 machine 9 interceptor_init 0x4ff8 watcher default_options 0 false)

attach-patched :
    attach 2 machine 9 interceptor_init 0x4ff8 watcher default_options 0 false
    ≡ some (patched, attach_ok)
unfolding patched
attach-patched = refl

abbrev cpu : CpuContext
cpu = record { pc = 0; sp = 0x9000; others = λ r. 0 }

busy : Interceptor
unfolding patched begin_invocation
busy = (begin_invocation machine 5 patched 1 cpu 0x5000).interceptor

busy_reached : Reached machine busy
unfolding busy
busy_reached =
    later 5
      (later 9 start (attaching 2 0x4ff8 watcher default_options 0 false attach_ok attach-patched))
      (entering 1 cpu 0x5000)

detach_forgets_example :
    (j : Interceptor) × (detach machine 9 busy watcher ≡ some j)
    × IsConsistent j
    × ((x : ℕ)
        → (busy.heap x).destroyed ≡ false
        → has_listener (j.heap x).listener_entries watcher ≡ false)
detach_forgets_example =
    detach_forgets machine 9 busy watcher machine-IsReliable
      (Reached-IsConsistent machine-IsReliable busy_reached)

attach-answers_example :
    (j : Interceptor) × (r : AttachReturn) × (attach 2 machine 9 busy 0x4ff8 watcher default_options
        0 false
      ≡ some (j, r))
    × Attached busy.function_by_address 0x4ff8 watcher j.function_by_address
        (λ c. (j.heap c).listener_entries)
        r
unfolding busy
attach-answers_example =
    attach-answers 2 machine 9 busy 0x4ff8 watcher default_options 0 false 0x4ff8 machine-IsReliable
      refl (Reached-IsConsistent machine-IsReliable busy_reached)

given : Option Interceptor → Interceptor
given none = interceptor_init
given (some i) = i

waiting : Interceptor
unfolding given busy detach remove_listener is_empty
waiting = given (detach machine 9 busy watcher)

detach-waiting : detach machine 9 busy watcher ≡ some waiting
unfolding waiting
detach-waiting = refl

waiting_reached : Reached machine waiting
waiting_reached = later 9 busy_reached (detaching watcher detach-waiting)

flush_lem_example :
    let left = keep_if (in_use waiting.heap) waiting.current_transaction.pending_destroy_tasks in
    (j : Interceptor) × (flush machine 9 waiting ≡ some (j, no_task left))
    × (j.current_transaction.pending_destroy_tasks ≡ left)
unfolding waiting
flush_lem_example =
    flush_lem machine 9 waiting machine-IsReliable (λ k c v. refl) waiting_reached refl

-- Thread 9 forks while thread 5 is in the function; thread 2 has come and gone.
abbrev forking : List ℕ
forking = 5 ∷ 9 ∷ 2 ∷ []

recover_counts_example :
    ((recover_from_fork_in_child forking 9 waiting).heap 1).trampoline_usage_counter ≡ 0
unfolding waiting forget_listener_data
recover_counts_example = recover_counts forking 9 waiting 1 (inr (inl (inl refl)))

fork_flushes_example :
    (j : Interceptor) × (flush machine 9 (recover_from_fork_in_child forking 9 waiting)
      ≡ some (j, true))
    × (j.current_transaction.pending_destroy_tasks ≡ [])
unfolding waiting forget_listener_data
fork_flushes_example =
    fork_flushes machine forking 9 waiting machine-IsReliable (λ k c v. refl) waiting_reached refl
      refl

-- The thread leaves the function between two tests of the drain.
racing : Platform
racing = record machine { usage = λ k c v. if k == 0 then v else 0 }

-- The entries of function 1 wait to be given back, then its listener, then the context itself.
detached : List DestroyTask
detached =
    record { ctx = 1; notify = unref_entries }
    ∷ record { ctx = 1; notify = unref_listener 0x7000 }
    ∷ destroying 1
    ∷ []

drain_frees_early_example :
    let (t, log) = drain racing busy.heap 0 detached transaction_init [] in
    Memᴰ (record { ctx = 1; notify = unref_entries }) t.pending_destroy_tasks
    × Memᴰ (run_task (destroying 1)) log
unfolding racing busy detached
drain_frees_early_example =
    drain_frees_early racing busy.heap 0 (record { ctx = 1; notify = unref_entries })
      (record { ctx = 1; notify = unref_listener 0x7000 } ∷ []) [] transaction_init [] (omega arith)
      refl
