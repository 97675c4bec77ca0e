-- ===== src/Async/Threads.antt =====
-- What is true of a thread by the place where it is, and why the other threads keep it so.
use atscppapi.Common.{ℕ, true, some, List, [], ◌∷◌, ◌≡◌, ◌≢◌, ◌⊎◌, arith}
use atscppapi.Async.{
  Controller, Phase, idle, locks, checks, calls, unlocks, returned, breaks, forgets,
  unlocks_promise, Dispatches, set_at,
}

pub set_at-same {ℓ} : {A : Type ℓ} (f : ℕ → A) (x : ℕ) (v : A) → set_at f x v x ≡ v
unfolding set_at
set_at-same f x v = ground arith

pub set_at-other {ℓ} : {A : Type ℓ} (f : ℕ → A) (x y : ℕ) (v : A) → y ≢ x → set_at f x v y ≡ f y
unfolding set_at
set_at-other f x y v n = ground arith

pub same_or_other : (x y : ℕ) → (x ≡ y) ⊎ (x ≢ y)
same_or_other x y = ground arith

abbrev pub Among : ℕ → List ℕ → Type 0
Among c [] = ⊥
Among c (d ∷ ds) = (c ≡ d) ⊎ Among c ds

-- The controllers that still have the receiver are among these.
abbrev pub Covers : Dispatches → ℕ → List ℕ → Type 0
Covers s r cs =
    (c : ℕ) (k : Controller) → s.controllers c ≡ some k → k.event_receiver ≡ some r → Among c cs

-- The thread holds the mutex of the controller.
abbrev pub Holds : Dispatches → ℕ → ℕ → Type 0
Holds s t c = (k : Controller) × ((s.controllers c ≡ some k) × (s.holder k.dispatch_mutex ≡ some t))

-- The same, and the controller has this receiver.
abbrev pub HoldsFor : Dispatches → ℕ → ℕ → ℕ → Type 0
HoldsFor s t c r =
    (k : Controller) × ((s.controllers c ≡ some k)
      × ((s.holder k.dispatch_mutex ≡ some t) × (k.event_receiver ≡ some r)))

abbrev pub Dies : Dispatches → ℕ → List ℕ → Type 0
Dies s r cs = (s.dying r ≡ true) × Covers s r cs

abbrev pub Fits : Dispatches → ℕ → Phase → Type 0
Fits s t idle = Unit
Fits s t (locks c) = Unit
Fits s t (checks c) = Holds s t c
Fits s t (calls c r) = HoldsFor s t c r
Fits s t (unlocks c ret) = Holds s t c
Fits s t (returned ret) = Unit
Fits s t (breaks r cs) = Dies s r cs
Fits s t (forgets r c cs) = Holds s t c × Dies s r (c ∷ cs)
Fits s t (unlocks_promise r c cs) = Holds s t c × Dies s r cs

-- What a step does not take from the threads of which `P` holds.
pub record Frame (P : ℕ → Type 0) (s u : Dispatches) : Type 0 where
  pub holders : (t m : ℕ) → P t → s.holder m ≡ some t → u.holder m ≡ some t
  pub kept :
      (t c : ℕ) (k : Controller)
      → P t
      → s.controllers c ≡ some k
      → s.holder k.dispatch_mutex ≡ some t
      → u.controllers c ≡ some k
  pub covered : (r : ℕ) (cs : List ℕ) → s.dying r ≡ true → Covers s r cs → Covers u r cs
  pub dying : (r : ℕ) → s.dying r ≡ true → u.dying r ≡ true

module _ {P : ℕ → Type 0} {s u : Dispatches} (f : Frame P s u) where
  Frame-Holds : (t c : ℕ) → P t → Holds s t c → Holds u t c
  Frame-Holds t c p (k, (at_c, held)) =
      (k, (f.kept t c k p at_c held, f.holders t k.dispatch_mutex p held))

  pub Frame-Dies : (r : ℕ) (cs : List ℕ) → Dies s r cs → Dies u r cs
  Frame-Dies r cs (d, h) = (f.dying r d, f.covered r cs d h)

  pub Frame-Fits : (t : ℕ) (p : Phase) → P t → Fits s t p → Fits u t p
  Frame-Fits t idle p h = h
  Frame-Fits t (locks c) p h = h
  Frame-Fits t (checks c) p h = Frame-Holds t c p h
  Frame-Fits t (calls c r) p (k, (at_c, (held, has))) =
      (k, (f.kept t c k p at_c held, (f.holders t k.dispatch_mutex p held, has)))
  Frame-Fits t (unlocks c ret) p h = Frame-Holds t c p h
  Frame-Fits t (returned ret) p h = h
  Frame-Fits t (breaks r cs) p h = Frame-Dies r cs h
  Frame-Fits t (forgets r c cs) p (h, d) = (Frame-Holds t c p h, Frame-Dies r (c ∷ cs) d)
  Frame-Fits t (unlocks_promise r c cs) p (h, d) = (Frame-Holds t c p h, Frame-Dies r cs d)
