-- ===== src/Interceptor/Consistent/Settled.antt =====
-- The end of the outermost transaction: the patches are in line with the table.
use hoox.Prelude.{ℕ, ◌≡◌, ap, true, false, some, arith}
use hoox.Interceptor.{UpdateFunc, activate, deactivate, Interceptor, Platform, dec32, positive}
use hoox.Interceptor.Instrument.{lookup}
use hoox.Interceptor.Commit.Pending.{pending_count}
use hoox.Interceptor.Flush.{end_transaction}
use hoox.Interceptor.Consistent.{IsConsistent}
use hoox.Interceptor.Consistent.Ending.{IsSettled, transaction_end-IsConsistent}
use hoox.Interceptor.Consistent.Operations.{IsReliable}
use hoox.Interceptor.Consistent.Reached.{Reached, Reached-IsConsistent}

settled_patches :
    (i : Interceptor)
    → IsConsistent i
    → IsSettled i
    → ((a c : ℕ) → lookup i.function_by_address a ≡ some c → (i.heap c).activated ≡ true)
      × ((c : ℕ)
          → (i.heap c).activated ≡ true
          → lookup i.function_by_address (i.heap c).function_address ≡ some c)
unfolding pending_count
settled_patches i h settled =
    let clear : (f : UpdateFunc) (c : ℕ)
        → pending_count f c i.current_transaction.pending_update_tasks ≡ 0 =
      λ f c. ap (λ p. pending_count f c p) settled in
    (
      λ a c at. ground (arith, h.listed a c at, h.ready c, clear activate c, clear deactivate c),
      λ c on. ground (arith, h.known c, h.ready c, clear activate c, clear deactivate c),
    )

-- In any state that attaching, detaching, replacing, reverting, transactions, flushes, calls of
-- instrumented functions and forks into the child lead to, where pages can be patched and the
-- backend leaves the interceptor's own fields alone and no slice in a context that it refuses, the
-- end of the outermost transaction, if it is marked dirty, comes back with the same table, every
-- function in the table patched, and no function patched that is not in the table.
pub ended_patches :
    {plat : Platform} (me : ℕ) {i : Interceptor}
    → IsReliable plat
    → Reached plat i
    → positive (dec32 i.current_transaction.level) ≡ false
    → i.current_transaction.is_dirty ≡ true
    → (j : Interceptor) × (end_transaction plat me i ≡ some j)
      × (j.function_by_address ≡ i.function_by_address)
      × ((a c : ℕ) → lookup j.function_by_address a ≡ some c → (j.heap c).activated ≡ true)
      × ((c : ℕ)
          → (j.heap c).activated ≡ true
          → lookup j.function_by_address (j.heap c).function_address ≡ some c)
unfolding end_transaction
ended_patches {plat} me {i} sure r outermost dirty =
    let (j, runs, kept, (listing, entries, settled)) =
      transaction_end-IsConsistent plat me i sure.patches (Reached-IsConsistent sure r) in
    let (patched, listed) = settled_patches j kept (settled outermost dirty) in
    (j, runs, listing, patched, listed)
