-- ===== src/Tests/Locks.antt =====
-- Scoped locks over mutexes that are counted in memory.
use atscppapi.Common.{ℕ, suc, ◌≡◌, refl, ◌==◌, if◌then◌else◌, arith}
use atscppapi.Mutex.{PthreadApi, new_lock, delete_lock}
use atscppapi.Mutex.Scopes.{
  Block, finished, locked, tried, more, fewer, CountsHolds, run, run-Keeps, relocked-delete_lock,
}

abbrev Holds : Type 0
Holds = ℕ → ℕ

-- Recursive mutexes, of which another thread holds the one at 3.
abbrev recursive : PthreadApi
recursive = record {
  World = Holds;
  mutex_init = λ w type. (7, w);
  mutex_destroy = λ w m. w;
  mutex_trylock = λ w m. if m == 3 then (16, w) else (0, λ k. more m k (w k));
  mutex_lock = λ w m. (0, λ k. more m k (w k));
  mutex_unlock = λ w m. (0, λ k. fewer m k (w k));
}

-- Error-checking mutexes.
abbrev error_checking : PthreadApi
error_checking = record {
  World = Holds;
  mutex_init = λ w type. (7, w);
  mutex_destroy = λ w m. w;
  mutex_trylock = λ w m. if w m == 0 then (0, λ k. more m k (w k)) else (16, w);
  mutex_lock = λ w m. if w m == 0 then (0, λ k. more m k (w k)) else (35, w);
  mutex_unlock = λ w m. (0, λ k. fewer m k (w k));
}

abbrev held : Holds → ℕ → ℕ
held w m = w m

recursive-CountsHolds : CountsHolds recursive held
unfolding more fewer
recursive-CountsHolds = record {
  at_lock = λ w m k e. refl;
  at_failed_lock = λ w m k e. absurd (e refl);
  at_trylock = λ w m k e. ground arith;
  at_failed_trylock = λ w m k e. ground arith;
  at_unlock = λ w m k h. refl;
}

error_checking-CountsHolds : CountsHolds error_checking held
unfolding more fewer
error_checking-CountsHolds = record {
  at_lock = λ w m k e. ground arith;
  at_failed_lock = λ w m k e. ground arith;
  at_trylock = λ w m k e. ground arith;
  at_failed_trylock = λ w m k e. ground arith;
  at_unlock = λ w m k h. refl;
}

abbrev nested : Block
nested =
    locked 1 (tried 1 (locked 2 finished finished) finished (tried 3 finished finished finished))
      finished

abbrev held_once : Holds
held_once m = 1

run-Keeps_example : held (run recursive nested held_once) 1 ≡ 1
run-Keeps_example = run-Keeps recursive held recursive-CountsHolds (λ w m. refl) nested held_once 1

relocked-delete_lock_example :
    suc (
      held
        (delete_lock error_checking
          (new_lock error_checking 1 held_once).0
          (new_lock error_checking 1 held_once).1)
        1)
    ≡ 1
relocked-delete_lock_example =
    relocked-delete_lock error_checking held error_checking-CountsHolds 1 held_once (omega arith)
      (omega arith)

run-nested : run recursive nested held_once 1 ≡ 1
unfolding run more fewer
run-nested = refl
