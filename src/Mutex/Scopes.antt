-- ===== src/Mutex/Scopes.antt =====
-- Code that holds mutexes in scopes leaves every mutex as it found it.
use atscppapi.Common.{
  ℕ, zero, suc, ◌-◌, ◌<◌, ◌≡◌, ◌≢◌, refl, sym, ap, ◌∙◌, Bool, true, false, ◌==◌, if◌then◌else◌,
  arith, subst, ◌⊎◌, inl, inr,
}
use atscppapi.Mutex.{
  PthreadApi, try_lock, lock, unlock, new_lock, delete_lock, new_try_lock, delete_try_lock,
}

-- The code of a thread, as far as it concerns the scoped locks: a scope with a lock, and what
-- follows it; or a scope with a lock that is tried, where `hasLock` chooses what is run in it.
pub data Block : Type 0 where
  finished : Block
  locked : ℕ → Block → Block → Block
  tried : ℕ → Block → Block → Block → Block

-- How often a mutex is held more.
unfoldable pub more : ℕ → ℕ → ℕ → ℕ
more m mutex n = if m == mutex then suc n else n

unfoldable pub fewer : ℕ → ℕ → ℕ → ℕ
fewer m mutex n = if m == mutex then n - 1 else n

-- Documented behaviour of pthread mutexes, for how often the calling thread holds each: a call that
-- answers 0 takes or gives back one hold, a call that fails changes nothing.
pub record CountsHolds (ts : PthreadApi) (held : ts.World → ℕ → ℕ) : Type 0 where
  pub at_lock :
      (w : ts.World) (m k : ℕ)
      → (ts.mutex_lock w m).0 ≡ 0
      → held (ts.mutex_lock w m).1 k ≡ more m k (held w k)
  pub at_failed_lock :
      (w : ts.World) (m k : ℕ) → (ts.mutex_lock w m).0 ≢ 0 → held (ts.mutex_lock w m).1 k ≡ held w k
  pub at_trylock :
      (w : ts.World) (m k : ℕ)
      → (ts.mutex_trylock w m).0 ≡ 0
      → held (ts.mutex_trylock w m).1 k ≡ more m k (held w k)
  pub at_failed_trylock :
      (w : ts.World) (m k : ℕ)
      → (ts.mutex_trylock w m).0 ≢ 0
      → held (ts.mutex_trylock w m).1 k ≡ held w k
  pub at_unlock :
      (w : ts.World) (m k : ℕ)
      → 0 < held w m
      → held (ts.mutex_unlock w m).1 k ≡ fewer m k (held w k)

module _ (ts : PthreadApi) where
  unfoldable pub run : Block → ts.World → ts.World
  unfolding new_lock delete_lock new_try_lock delete_try_lock
  run finished w = w
  run (locked m inner rest) w =
      let (l, w') = new_lock ts m w in run rest (delete_lock ts l (run inner w'))
  run (tried m inner otherwise rest) w =
      let (l, w') = new_try_lock ts m w in
      let taken = run inner w' in
      let not_taken = run otherwise w' in
      run rest (delete_try_lock ts l (if l.has_lock then taken else not_taken))

fewer-more : (m k n : ℕ) → fewer m k (more m k n) ≡ n
unfolding fewer more
fewer-more m k n = ground arith

more_pos : (m n : ℕ) → 0 < more m m n
unfolding more
more_pos m n = ground arith

zero_or_not : (n : ℕ) → ((n ≡ 0) × ((n == 0) ≡ true)) ⊎ ((n ≢ 0) × ((n == 0) ≡ false))
zero_or_not zero = inl (refl, ground arith)
zero_or_not (suc n) = inr (ground arith, ground arith)

module _ (ts : PthreadApi) (held : ts.World → ℕ → ℕ) (c : CountsHolds ts held) where
  abbrev Keeps : ts.World → ts.World → Type 0
  Keeps w v = (k : ℕ) → held v k ≡ held w k

  -- A hold that was taken, kept over some code, and given back.
  given_back :
      (m : ℕ) (w v u : ts.World)
      → ((k : ℕ) → held v k ≡ more m k (held w k))
      → Keeps v u
      → Keeps w (ts.mutex_unlock u m).1
  given_back m w v u taken kept k =
      c.at_unlock u m k (subst (λ n. 0 < n) (sym (kept m ∙ taken m)) (more_pos m (held w m)))
      ∙ ap (fewer m k) (kept k ∙ taken k)
      ∙ fewer-more m k (held w k)

  -- When locking never fails, code that uses only scoped locks, however they are nested and whichever
  -- tries succeed, ends with every mutex held as often as before.
  pub run-Keeps :
      ((w : ts.World) (m : ℕ) → (ts.mutex_lock w m).0 ≡ 0)
      → (b : Block) (w : ts.World) (k : ℕ) → held (run ts b w) k ≡ held w k
  unfolding run lock unlock try_lock delete_try_lock
  run-Keeps never_fails finished w k = refl
  run-Keeps never_fails (locked m inner rest) w k =
      let w' = (ts.mutex_lock w m).1 in
      let after = run ts inner w' in
      run-Keeps never_fails rest (ts.mutex_unlock after m).1 k
      ∙ given_back m w w' after (λ j. c.at_lock w m j (never_fails w m))
          (λ j. run-Keeps never_fails inner w' j) k
  run-Keeps never_fails (tried m inner otherwise rest) w k =
      let w' = (ts.mutex_trylock w m).1 in
      let tries = (ts.mutex_trylock w m).0 in
      let scope_end = λ (b : Bool).
        delete_try_lock ts (record { mutex = m; has_lock = b })
          (if b then run ts inner w' else run ts otherwise w') in
      run-Keeps never_fails rest (scope_end (tries == 0)) k ∙ elim (zero_or_not tries) [
        | inl (ok, taken) ↦
            ap (λ b. held (scope_end b) k) taken
            ∙ given_back m w w' (run ts inner w') (λ j. c.at_trylock w m j ok)
                (λ j. run-Keeps never_fails inner w' j) k
        | inr (failed, not_taken) ↦
            ap (λ b. held (scope_end b) k) not_taken
            ∙ run-Keeps never_fails otherwise w' k
            ∙ c.at_failed_trylock w m k failed
      ]

  -- A scoped lock whose locking fails, as that of an error-checking mutex that the thread holds
  -- already does, gives back at its end the hold of someone else: the mutex is held once less.
  pub relocked-delete_lock :
      (m : ℕ) (w : ts.World)
      → (ts.mutex_lock w m).0 ≢ 0
      → 0 < held w m
      → suc (held (delete_lock ts (new_lock ts m w).0 (new_lock ts m w).1) m) ≡ held w m
  unfolding delete_lock new_lock lock unlock fewer
  relocked-delete_lock m w failed h =
      let w' = (ts.mutex_lock w m).1 in
      let kept = c.at_failed_lock w m m failed in
      let less = c.at_unlock w' m m (subst (λ n. 0 < n) (sym kept) h) in grind (arith, kept, less)
