-- ===== src/Interceptor/Consistent/Reached.antt =====
-- Any sequence of attaching, detaching, replacing, reverting, transactions, flushes, calls of
-- instrumented functions and forks into the child, from hoox_interceptor_init on.
use hoox.Prelude.{List, ℕ, ◌≡◌, refl, inl, Bool, Option, some, arith, bind_some}
use mathlib.Core.Path.{subst}
use hoox.Interceptor.{CpuContext, Interceptor, InterceptorType, Listener, Options, Platform}
use hoox.Interceptor.Threads.{ignore_current_thread}
use hoox.Interceptor.Instrument.{lookup, begin, resolve}
use hoox.Interceptor.Commit.{transaction_begin, transaction_init}
use hoox.Interceptor.Commit.Pending.{pending_count}
use hoox.Interceptor.Attach.{AttachReturn, attach, detach}
use hoox.Interceptor.Replace.{ReplaceReturn, replace_with_type, revert}
use hoox.Interceptor.Flush.{begin_transaction, end_transaction, pass, interceptor_init, unallocated}
use hoox.Interceptor.Consistent.Marked.{
  IsMarked, transaction_end-IsMarked, attach-IsMarked, detach-IsMarked, replace_with_type-IsMarked,
  revert-IsMarked,
}
use hoox.Interceptor.Consistent.Calls.{
  Kept-IsConsistent, Kept-IsMarked, begin_invocation-Kept, end_invocation-Kept, restore-Kept,
}
use hoox.Interceptor.Stack.{restore}
use hoox.Interceptor.Fork.{recover_from_fork_in_child}
use hoox.Interceptor.Consistent.Recovered.{recover-Kept}
use hoox.Interceptor.Invocation.{begin_invocation, reap_thread}
use hoox.Interceptor.Returning.{Left, end_invocation}
use hoox.Interceptor.Consistent.{IsConsistent}
use hoox.Interceptor.Consistent.Ending.{transaction_end-IsConsistent}
use hoox.Interceptor.Consistent.Operations.{IsReliable, attach-IsConsistent}
use hoox.Interceptor.Consistent.Replacing.{revert-IsConsistent}
use hoox.Interceptor.Consistent.Replacing.{replace_with_type-IsConsistent}
use hoox.Interceptor.Consistent.Detaching.{detach_forgets}

-- One call of the interceptor that comes back, on the thread `me`.
pub data Operation (plat : Platform) (me : ℕ) (i : Interceptor) : Interceptor → Type 0 where
  attaching :
      (fuel target : ℕ) (l : Listener) (options : Options) (function_data : ℕ) (unignorable : Bool)
      {j : Interceptor} (r : AttachReturn)
      → attach fuel plat me i target l options function_data unignorable ≡ some (j, r)
      → Operation plat me i j
  detaching : (l : Listener) {j : Interceptor} → detach plat me i l ≡ some j → Operation plat me i j
  replacing :
      (fuel : ℕ) (kind : InterceptorType) (target f d : ℕ) (options : Options) {j : Interceptor}
      (r : ReplaceReturn) (original : Option ℕ)
      → replace_with_type fuel plat me i kind target f d options ≡ some (j, r, original)
      → Operation plat me i j
  reverting :
      (fuel target : ℕ) {j : Interceptor}
      → revert fuel plat me i target ≡ some j
      → Operation plat me i j
  beginning : Operation plat me i (begin_transaction i)
  ending : {j : Interceptor} → end_transaction plat me i ≡ some j → Operation plat me i j
  entering :
      (c : ℕ) (cpu : CpuContext) (ret : ℕ)
      → Operation plat me i (begin_invocation plat me i c cpu ret).interceptor
  leaving :
      (c : ℕ) (cpu : CpuContext) (r : Left)
      → end_invocation plat me i c cpu ≡ some r
      → Operation plat me i r.interceptor
  unwinding :
      (depth : ℕ)
      → Operation plat me i (reap_thread i me (restore i.heap (i.threads me).stack depth))
  recovering : (contexts : List ℕ) → Operation plat me i (recover_from_fork_in_child contexts me i)
  flushing : {j : Interceptor} → pass plat me i ≡ some j → Operation plat me i j

-- Any number of calls, each on some thread.
pub data Reached (plat : Platform) : Interceptor → Type 0 where
  start : Reached plat interceptor_init
  later : (me : ℕ) {i j : Interceptor} → Reached plat i → Operation plat me i j → Reached plat j

init-IsConsistent : IsConsistent interceptor_init
unfolding interceptor_init transaction_init pending_count lookup unallocated
init-IsConsistent = record {
  ready = λ c. inl (refl, refl, refl);
  distinct = tt;
  unique = tt;
  listed = λ a c at. cc;
  known = λ c alive. cc;
  unused = λ c free. (refl, refl, refl, refl);
  bounded = λ c. omega arith;
}

attaching-IsConsistent :
    (plat : Platform) (me : ℕ) (i j : Interceptor) (fuel target : ℕ) (l : Listener)
    (options : Options) (function_data : ℕ) (unignorable : Bool) (r : AttachReturn)
    → IsReliable plat
    → IsConsistent i
    → attach fuel plat me i target l options function_data unignorable ≡ some (j, r)
    → IsConsistent j
unfolding attach
attaching-IsConsistent plat me i j fuel target l options fd u r sure h runs =
    let (a, found, rest) =
      bind_some (resolve fuel plat (begin (ignore_current_thread i me)) target) _ (j, r) runs in
    let (k, s, goes, kept) =
      attach-IsConsistent fuel plat me i target l options fd u a sure found h in
    let same : k ≡ j = cc in subst IsConsistent same kept

replacing-IsConsistent :
    (plat : Platform) (me : ℕ) (i j : Interceptor) (fuel : ℕ) (kind : InterceptorType)
    (target f d : ℕ) (options : Options) (r : ReplaceReturn) (original : Option ℕ)
    → IsReliable plat
    → IsConsistent i
    → replace_with_type fuel plat me i kind target f d options ≡ some (j, r, original)
    → IsConsistent j
unfolding replace_with_type
replacing-IsConsistent plat me i j fuel kind target f d options r original sure h runs =
    let (a, found, rest) = bind_some (resolve fuel plat (begin i) target) _ (j, r, original) runs in
    let (k, s, o, goes, kept) =
      replace_with_type-IsConsistent fuel plat me i kind target f d options a sure found h in
    let same : k ≡ j = cc in subst IsConsistent same kept

reverting-IsConsistent :
    (plat : Platform) (me : ℕ) (i j : Interceptor) (fuel target : ℕ)
    → IsReliable plat
    → IsConsistent i
    → revert fuel plat me i target ≡ some j
    → IsConsistent j
unfolding revert
reverting-IsConsistent plat me i j fuel target sure h runs =
    let (a, found, rest) = bind_some (resolve fuel plat (begin i) target) _ j runs in
    let (k, goes, kept) = revert-IsConsistent fuel plat me i target a sure found h in
    let same : k ≡ j = cc in subst IsConsistent same kept

Operation-IsConsistent :
    {plat : Platform} {me : ℕ} {i j : Interceptor}
    → IsReliable plat
    → Operation plat me i j
    → IsConsistent i
    → IsConsistent j
unfolding begin_transaction end_transaction pass transaction_begin
Operation-IsConsistent {plat} {me} {i} {j} sure (attaching fuel target l options fd u r runs) h =
    attaching-IsConsistent plat me i j fuel target l options fd u r sure h runs
Operation-IsConsistent {plat} {me} {i} {j} sure (detaching l runs) h =
    let (k, goes, kept, forgets) = detach_forgets plat me i l sure h in
    let same : k ≡ j = cc in subst IsConsistent same kept
Operation-IsConsistent {plat} {me} {i} {j} sure (replacing fuel kind target f d options r o runs)
      h =
    replacing-IsConsistent plat me i j fuel kind target f d options r o sure h runs
Operation-IsConsistent {plat} {me} {i} {j} sure (reverting fuel target runs) h =
    reverting-IsConsistent plat me i j fuel target sure h runs
Operation-IsConsistent sure beginning h = h
Operation-IsConsistent {plat} {me} {i} {j} sure (ending runs) h =
    let (k, goes, kept, ended) = transaction_end-IsConsistent plat me i sure.patches h in
    let same : k ≡ j = cc in subst IsConsistent same kept
Operation-IsConsistent {plat} {me} {i} {j} sure (flushing runs) h =
    let (k, goes, kept, ended) =
      transaction_end-IsConsistent plat me (begin_transaction i) sure.patches h in
    let same : k ≡ j = cc in subst IsConsistent same kept
Operation-IsConsistent {plat} {me} {i} sure (entering c cpu ret) h =
    Kept-IsConsistent i (begin_invocation plat me i c cpu ret).interceptor
      (begin_invocation-Kept plat me i c cpu ret) h
Operation-IsConsistent {plat} {me} {i} sure (leaving c cpu r runs) h =
    Kept-IsConsistent i r.interceptor (end_invocation-Kept plat me i c cpu r runs) h
Operation-IsConsistent {plat} {me} {i} sure (unwinding depth) h =
    Kept-IsConsistent i (reap_thread i me (restore i.heap (i.threads me).stack depth))
      (restore-Kept me i depth) h
Operation-IsConsistent {plat} {me} {i} sure (recovering contexts) h =
    Kept-IsConsistent i (recover_from_fork_in_child contexts me i) (recover-Kept contexts me i) h

Operation-IsMarked :
    {plat : Platform} {me : ℕ} {i j : Interceptor} → Operation plat me i j → IsMarked i → IsMarked j
unfolding begin_transaction end_transaction pass transaction_begin
Operation-IsMarked {plat} {me} {i} {j} (attaching fuel target l options fd u r runs) h =
    attach-IsMarked fuel plat me i target l options fd u j r runs
Operation-IsMarked {plat} {me} {i} {j} (detaching l runs) h = detach-IsMarked plat me i l j runs
Operation-IsMarked {plat} {me} {i} {j} (replacing fuel kind target f d options r o runs) h =
    replace_with_type-IsMarked fuel plat me i kind target f d options j r o runs
Operation-IsMarked {plat} {me} {i} {j} (reverting fuel target runs) h =
    revert-IsMarked fuel plat me i target j runs
Operation-IsMarked beginning h = h
Operation-IsMarked {plat} {me} {i} {j} (ending runs) h = transaction_end-IsMarked plat me i h j runs
Operation-IsMarked {plat} {me} {i} {j} (flushing runs) h =
    transaction_end-IsMarked plat me (begin_transaction i) h j runs
Operation-IsMarked {plat} {me} {i} (entering c cpu ret) h =
    Kept-IsMarked i (begin_invocation plat me i c cpu ret).interceptor
      (begin_invocation-Kept plat me i c cpu ret) h
Operation-IsMarked {plat} {me} {i} (leaving c cpu r runs) h =
    Kept-IsMarked i r.interceptor (end_invocation-Kept plat me i c cpu r runs) h
Operation-IsMarked {plat} {me} {i} (unwinding depth) h =
    Kept-IsMarked i (reap_thread i me (restore i.heap (i.threads me).stack depth))
      (restore-Kept me i depth) h
Operation-IsMarked {plat} {me} {i} (recovering contexts) h =
    Kept-IsMarked i (recover_from_fork_in_child contexts me i) (recover-Kept contexts me i) h

pub Reached-IsMarked : {plat : Platform} {i : Interceptor} → Reached plat i → IsMarked i
unfolding interceptor_init transaction_init
Reached-IsMarked start = λ clean. refl
Reached-IsMarked (later me r o) = Operation-IsMarked o (Reached-IsMarked r)

-- In any state that attaching, detaching, replacing, reverting, transactions, flushes, calls of
-- instrumented functions and forks into the child lead to, where pages can be patched and the
-- backend leaves the interceptor's own fields alone and no slice in a context that it refuses: the
-- table lists exactly the contexts that are not destroyed, each under its function's address; the
-- updates that wait for a context bring its patch in line with that; and no array of listeners is
-- longer than the data that an invocation has for them.
pub Reached-IsConsistent :
    {plat : Platform} {i : Interceptor} → IsReliable plat → Reached plat i → IsConsistent i
Reached-IsConsistent sure start = init-IsConsistent
Reached-IsConsistent sure (later me r o) =
    Operation-IsConsistent sure o (Reached-IsConsistent sure r)
