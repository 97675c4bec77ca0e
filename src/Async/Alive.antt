-- ===== src/Async/Alive.antt =====
-- A receiver whose method runs is alive, and calls under one mutex exclude each other.
use atscppapi.Common.{ℕ, true, false, some, [], ◌∷◌, ◌≡◌, ◌≢◌, sym, subst}
use atscppapi.Async.{
  Controller, Dispatches, idle, locks, checks, calls, unlocks, returned, breaks, forgets,
  unlocks_promise, start, Step, executes, starts_dispatch, locks_mutex, finds_none, calls_receiver,
  receiver_returns, unlocks_mutex, goes_on, starts_delete, locks_promise, breaks_promise,
  leaves_promise, frees, Reach, here, next,
}
use atscppapi.Async.Threads.{HoldsFor, Frame-Dies}
use atscppapi.Async.Frames.{Frame-take_mutex, Frame-release_mutex, not_freed, same_some}
use atscppapi.Async.Moves.{
  IsSafe, start-IsSafe, placed, moved, takes, taken_Holds, held_mutex, releases, forgets_safely,
  dies_safely, frees_safely, executes_safely,
}

Step-IsSafe : {s u : Dispatches} → Step s u → IsSafe s → IsSafe u
Step-IsSafe (executes r provider new_mutex c mutex lives fresh) h =
    executes_safely r provider new_mutex c mutex _ h lives fresh
Step-IsSafe (starts_dispatch t c e) h = moved t (locks c) _ h tt
Step-IsSafe (locks_mutex t c k e at_c free_mutex) h =
    takes t c (checks c) k _ h at_c free_mutex (taken_Holds t c k _ at_c)
Step-IsSafe {s} (finds_none t c k e at_c has) h =
    moved t (unlocks c false) s h (placed s t (checks c) h e)
Step-IsSafe {s} (calls_receiver t c r k e at_c has) h =
    moved t (calls c r) s h (k, (at_c, (held_mutex t c k s (placed s t (checks c) h e) at_c, has)))
Step-IsSafe {s} (receiver_returns t c r e) h =
    let (k, (at_c, (held, has))) = placed s t (calls c r) h e in
    moved t (unlocks c true) s h (k, (at_c, held))
Step-IsSafe {s} (unlocks_mutex t c ret k e at_c) h =
    releases t c (returned ret) k s h (placed s t (unlocks c ret) h e) at_c tt
Step-IsSafe (goes_on t ret e) h = moved t idle _ h tt
Step-IsSafe (starts_delete t r e lives) h = dies_safely t r _ h lives
Step-IsSafe {s} (locks_promise t r c cs k e at_c free_mutex) h =
    takes t c (forgets r c cs) k s h at_c free_mutex (
      taken_Holds t c k s at_c,
      Frame-Dies (Frame-take_mutex (λ x. Unit {0}) k.dispatch_mutex t s free_mutex) r (c ∷ cs)
          (placed s t (breaks r (c ∷ cs)) h e),
    )
Step-IsSafe {s} (breaks_promise t r c cs k e at_c) h =
    let (holds, dies) = placed s t (forgets r c cs) h e in
    forgets_safely t r c cs k s h holds dies at_c
Step-IsSafe {s} (leaves_promise t r c cs k e at_c) h =
    let (holds, dies) = placed s t (unlocks_promise r c cs) h e in
    releases t c (breaks r cs) k s h holds at_c (
      Frame-Dies (Frame-release_mutex k.dispatch_mutex t s (held_mutex t c k s holds at_c)) r cs
        dies)
Step-IsSafe {s} (frees t r e) h = frees_safely t r s h (placed s t (breaks r []) h e)

Reach-IsSafe : {s u : Dispatches} → Reach s u → IsSafe s → IsSafe u
Reach-IsSafe here h = h
Reach-IsSafe (next r st) h = Step-IsSafe st (Reach-IsSafe r h)

-- In every state that the threads can reach, when a thread calls a receiver's method from the
-- dispatch of a controller, the receiver is not freed, the controller still has it, and the mutex of
-- the controller is held by this thread.
pub called_alive :
    {s : Dispatches}
    → Reach start s
    → (t c r : ℕ) → s.phase t ≡ calls c r
    → (s.freed r ≡ false) × HoldsFor s t c r
called_alive {s} reach t c r e =
    let h = Reach-IsSafe reach start-IsSafe in
    let calling = placed s t (calls c r) h e in
    let (k, (at_c, (held, has))) = calling in
    (not_freed (λ x. (h.freed r x).1 c k at_c has), calling)

-- Two threads that call receivers at the same time do so under different mutexes.
pub called_alone :
    {s : Dispatches}
    → Reach start s
    → (t t' c c' r r' : ℕ) (k k' : Controller) → s.phase t ≡ calls c r
    → s.phase t' ≡ calls c' r'
    → s.controllers c ≡ some k
    → s.controllers c' ≡ some k'
    → t ≢ t'
    → k.dispatch_mutex ≢ k'.dispatch_mutex
called_alone {s} reach t t' c c' r r' k k' e e' at_c at_c' other same =
    let h = Reach-IsSafe reach start-IsSafe in
    let (j, (at_j, (held, has))) = placed s t (calls c r) h e in
    let (j', (at_j', (held', has'))) = placed s t' (calls c' r') h e' in
    let mine = held_mutex t c k s (j, (at_j, held)) at_c in
    let theirs = held_mutex t' c' k' s (j', (at_j', held')) at_c' in
    other (same_some mine (subst (λ m. s.holder m ≡ some t') (sym same) theirs))
