-- ===== src/Interceptor.antt =====
-- The interceptor of src/core/hooxinterceptor.c: the contexts of the functions it instruments, the
-- listeners, the transaction under way and the threads. A pointer to a function context is a number,
-- and `heap` holds what it points to; NULL is 0. An `int` is a word of 32 bits.
pub mod Stack
pub mod Listeners
pub mod Threads
pub mod Commit
pub mod Instrument
pub mod Attach
pub mod Replace
pub mod Flush
pub mod Consistent
pub mod Invocation
pub mod Returning
pub mod Fork
use hoox.Prelude.{
  ℕ, ◌+◌, ◌-◌, ◌%◌, ◌^◌, Bool, true, false, ◌&&◌, Option, List, [], ltb, ◌==◌, if◌then◌else◌,
}

-- int counters: `n++`, `n--` and `n > 0`
abbrev pub inc32 : ℕ → ℕ
inc32 n = (n + 1) % 2 ^ 32

abbrev pub dec32 : ℕ → ℕ
dec32 n = (n + (2 ^ 32 - 1)) % 2 ^ 32

abbrev pub positive : ℕ → Bool
positive n = ltb 0 n && ltb n (2 ^ 31)

-- HOOX_MAX_LISTENERS_PER_FUNCTION and HOOX_MAX_LISTENER_DATA
abbrev pub max_listeners_per_function : ℕ
max_listeners_per_function = 2

abbrev pub max_listener_data : ℕ
max_listener_data = 1024

pub data InterceptorType : Type 0 where
  default_type fast_type : InterceptorType

-- A listener: its address, and which of its two callbacks its interface has.
pub record Listener : Type 0 where
  pub instance_address : ℕ
  pub has_on_enter : Bool
  pub has_on_leave : Bool

pub record ListenerEntry : Type 0 where
  pub listener : Listener
  pub function_data : ℕ
  pub unignorable : Bool

-- HooxInterceptorOptions: 0 is the DEFAULT of each field, 1 is CHECKED or ONLINE.
pub record Options : Type 0 where
  pub scratch_register : ℕ
  pub scenario : ℕ
  pub relocation_policy : ℕ
  pub write_redirect : ℕ
  pub write_redirect_data : ℕ
  pub redirect_space_hint : ℕ

pub record FunctionContext : Type 0 where
  pub function_address : ℕ
  pub kind : InterceptorType
  pub destroyed : Bool
  pub activated : Bool
  pub has_on_leave_listener : Bool
  pub has_unignorable_listener : Bool
  pub trampoline_usage_counter : ℕ
  pub overwritten_prologue_len : ℕ
  pub on_invoke_trampoline : ℕ
  pub on_leave_trampoline : ℕ
  pub listener_entries : List (Option ListenerEntry)
  pub replacement_function : ℕ
  pub replacement_data : ℕ
  pub options : Options

abbrev pub Heap : Type 0
Heap = ℕ → FunctionContext

-- What a destroy task runs: hx_ptr_array_unref of an array of entries,
-- hoox_invocation_listener_unref, or hoox_function_context_perform_destroy of its context.
pub data DestroyNotify : Type 0 where
  unref_entries : DestroyNotify
  unref_listener : ℕ → DestroyNotify
  perform_destroy : DestroyNotify

pub record DestroyTask : Type 0 where
  pub ctx : ℕ
  pub notify : DestroyNotify

-- hoox_interceptor_activate or hoox_interceptor_deactivate
pub data UpdateFunc : Type 0 where
  activate deactivate : UpdateFunc

pub record UpdateTask : Type 0 where
  pub ctx : ℕ
  pub func : UpdateFunc

-- The tables keyed by addresses are association lists, gone through from the front.
pub record Transaction : Type 0 where
  pub is_dirty : Bool
  pub level : ℕ
  pub pending_destroy_tasks : List DestroyTask
  pub pending_update_tasks : List (ℕ × List UpdateTask)

-- The registers that the interceptor reads or sets, and the others.
pub record CpuContext : Type 0 where
  pub pc : ℕ
  pub sp : ℕ
  pub others : ℕ → ℕ

-- An entry of an invocation stack. The array of listener entries is never changed once it is
-- published, so the entry holds its contents.
pub record StackEntry : Type 0 where
  pub function_ctx : ℕ
  pub caller_ret_addr : ℕ
  pub stack_address : ℕ
  pub function : ℕ
  pub system_error : ℕ
  pub cpu_context : CpuContext
  pub listener_entries : List (Option ListenerEntry)
  pub calling_replacement : Bool
  pub only_invoke_unignorable_listeners : Bool
  pub original_system_error : ℕ

pub record ListenerDataSlot : Type 0 where
  pub owner : ℕ
  pub contents : List ℕ

-- A thread: its InterceptorThreadContext, the system's error number, and whether its guard key
-- holds the interceptor. The stack is listed from its top down, the slots from the front.
pub record ThreadContext : Type 0 where
  pub ignore_level : ℕ
  pub guard : Bool
  pub system_error : ℕ
  pub stack : List StackEntry
  pub listener_data_slots : List ListenerDataSlot

-- What the interceptor asks of others, in order: code is written (the backend's activate and
-- deactivate), a destroy task is run, a listener is called.
pub data Event : Type 0 where
  commit_code : Event
  write_code : ℕ → UpdateFunc → Event
  run_task : DestroyTask → Event
  call_on_enter : ℕ → ListenerEntry → ℕ → Event
  call_on_leave : ℕ → ListenerEntry → ℕ → Event

pub record Interceptor : Type 0 where
  pub function_by_address : List (ℕ × ℕ)
  pub has_backend : Bool
  pub options : Options
  pub selected_thread_id : ℕ
  pub current_transaction : Transaction
  pub heap : Heap
  pub next_ctx : ℕ
  pub threads : ℕ → ThreadContext
  pub log : List Event

-- A store to one context, or to one thread.
abbrev pub update {ℓ} : {A : Type ℓ} → (ℕ → A) → ℕ → A → ℕ → A
update f k v i = if i == k then v else f i

-- What the backend makes of a new context: it equips it, or it refuses it, and tells by
-- `trampoline_slice` whether it left a slice of code memory in it.
pub data Equipped : Type 0 where
  equipped : FunctionContext → Equipped
  unequipped : (trampoline_slice : Bool) → Equipped

-- What stands around the interceptor: the platform and its backend. `usage k c v` is what the k-th
-- test of a drain reads of a counter that held `v` when the drain began: other threads may have
-- changed it since. `entered` and `left` are what a listener's callback makes of the registers and
-- of the invocation's error number.
pub record Platform : Type 0 where
  pub page_size : ℕ
  pub code_signing_required : Bool
  pub strip_code_pointer : ℕ → ℕ
  pub sign_code_pointer : ℕ → ℕ
  pub resolve_redirect : ℕ → Option ℕ
  pub create_trampoline : FunctionContext → Bool → Equipped
  pub claim_grafted_trampoline : FunctionContext → Equipped
  pub patch_code_pages : List ℕ → Bool
  pub usage : ℕ → ℕ → ℕ → ℕ
  pub entered : ListenerEntry → CpuContext × ℕ → CpuContext × ℕ
  pub left : ListenerEntry → CpuContext × ℕ → CpuContext × ℕ
