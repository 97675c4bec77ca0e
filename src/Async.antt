-- ===== src/Async.antt =====
-- src/include/atscppapi/Async.h: dispatch controllers, promises and receivers, used by any number of
-- threads. A thread is somewhere in `dispatch` or in the destructor of a receiver, and one step of
-- the program is what a thread does between two places where another one may come in. Threads,
-- receivers, controllers, providers and mutexes are known by numbers.
pub mod Threads
pub mod Frames
pub mod Moves
pub mod Alive
use atscppapi.Common.{
  ◌≡◌, ℕ, Bool, true, false, ◌++◌, ◌==◌, Option, none, some, List, [], ◌∷◌, if◌then◌else◌,
}

-- AsyncDispatchController
pub record Controller : Type 0 where
  pub event_receiver : Option ℕ
  pub dispatch_mutex : ℕ
  pub provider : ℕ

-- Where a thread is: in `dispatch` of a controller, with the value to be returned; or in the
-- destruction of a receiver, in the destructor of a promise (~AsyncReceiverPromise) and with the
-- promises that are still to be destroyed.
pub data Phase : Type 0 where
  idle : Phase
  locks checks : ℕ → Phase
  calls : ℕ → ℕ → Phase
  unlocks : ℕ → Bool → Phase
  returned : Bool → Phase
  breaks : ℕ → List ℕ → Phase
  forgets unlocks_promise : ℕ → ℕ → List ℕ → Phase

-- The controllers by their addresses, the list `receiver_promises_` of each receiver as the list of
-- the controllers, which receivers are being destroyed and which are freed, the thread that holds
-- each mutex, and where each thread is.
pub record Dispatches : Type 0 where
  pub controllers : ℕ → Option Controller
  pub receiver_promises : ℕ → List ℕ
  pub dying : ℕ → Bool
  pub freed : ℕ → Bool
  pub holder : ℕ → Option ℕ
  pub phase : ℕ → Phase

unfoldable pub set_at {ℓ} : {A : Type ℓ} → (ℕ → A) → ℕ → A → ℕ → A
set_at f x v y = if y == x then v else f y

abbrev pub start : Dispatches
start = record {
  controllers = λ c. none;
  receiver_promises = λ r. [];
  dying = λ r. false;
  freed = λ r. false;
  holder = λ m. none;
  phase = λ t. idle;
}

-- Async::execute: a mutex is made if none is given, and `c` and `new_mutex` are the addresses of the
-- new objects. The provider is run with the controller, which it may dispatch from then on.
unfoldable pub execute : ℕ → ℕ → Option ℕ → ℕ → ℕ → Dispatches → Dispatches
unfolding set_at
execute event_receiver provider mutex new_mutex c s = record s {
  controllers = set_at s.controllers c (
      some (record {
        event_receiver = some event_receiver;
        dispatch_mutex = elim mutex [ none ↦ new_mutex | some m ↦ m ];
        provider = provider;
      }));
  receiver_promises =
      set_at s.receiver_promises event_receiver (s.receiver_promises event_receiver ++ c ∷ []);
}

-- A thread comes to another place.
unfoldable pub enter : ℕ → Phase → Dispatches → Dispatches
unfolding set_at
enter t p s = record s { phase = set_at s.phase t p }

unfoldable pub take_mutex : ℕ → ℕ → Dispatches → Dispatches
unfolding set_at
take_mutex m t s = record s { holder = set_at s.holder m (some t) }

unfoldable pub release_mutex : ℕ → Dispatches → Dispatches
unfolding set_at
release_mutex m s = record s { holder = set_at s.holder m none }

-- `event_receiver_ = NULL` for the controller, in the destructor of a promise.
unfoldable pub forget_receiver : ℕ → Controller → Dispatches → Dispatches
unfolding set_at
forget_receiver c k s = record s {
  controllers = set_at s.controllers c (some (record k { event_receiver = none }));
}

unfoldable pub start_dying : ℕ → Dispatches → Dispatches
unfolding set_at
start_dying r s = record s { dying = set_at s.dying r true }

unfoldable pub free : ℕ → Dispatches → Dispatches
unfolding set_at
free r s = record s { freed = set_at s.freed r true }

-- One step of the program. A mutex can be taken when nobody holds it. A receiver that is being
-- destroyed is not used for a new operation, and new objects have new addresses.
pub data Step (s : Dispatches) : Dispatches → Type 0 where
  executes :
      (r provider new_mutex c : ℕ) (mutex : Option ℕ)
      → s.dying r ≡ false
      → s.controllers c ≡ none
      → Step s (execute r provider mutex new_mutex c s)
  starts_dispatch : (t c : ℕ) → s.phase t ≡ idle → Step s (enter t (locks c) s)
  locks_mutex :
      (t c : ℕ) (k : Controller)
      → s.phase t ≡ locks c
      → s.controllers c ≡ some k
      → s.holder k.dispatch_mutex ≡ none
      → Step s (enter t (checks c) (take_mutex k.dispatch_mutex t s))
  finds_none :
      (t c : ℕ) (k : Controller)
      → s.phase t ≡ checks c
      → s.controllers c ≡ some k
      → k.event_receiver ≡ none
      → Step s (enter t (unlocks c false) s)
  calls_receiver :
      (t c r : ℕ) (k : Controller)
      → s.phase t ≡ checks c
      → s.controllers c ≡ some k
      → k.event_receiver ≡ some r
      → Step s (enter t (calls c r) s)
  receiver_returns : (t c r : ℕ) → s.phase t ≡ calls c r → Step s (enter t (unlocks c true) s)
  unlocks_mutex :
      (t c : ℕ) (ret : Bool) (k : Controller)
      → s.phase t ≡ unlocks c ret
      → s.controllers c ≡ some k
      → Step s (enter t (returned ret) (release_mutex k.dispatch_mutex s))
  goes_on : (t : ℕ) (ret : Bool) → s.phase t ≡ returned ret → Step s (enter t idle s)
  starts_delete :
      (t r : ℕ)
      → s.phase t ≡ idle
      → s.dying r ≡ false
      → Step s (enter t (breaks r (s.receiver_promises r)) (start_dying r s))
  locks_promise :
      (t r c : ℕ) (cs : List ℕ) (k : Controller)
      → s.phase t ≡ breaks r (c ∷ cs)
      → s.controllers c ≡ some k
      → s.holder k.dispatch_mutex ≡ none
      → Step s (enter t (forgets r c cs) (take_mutex k.dispatch_mutex t s))
  breaks_promise :
      (t r c : ℕ) (cs : List ℕ) (k : Controller)
      → s.phase t ≡ forgets r c cs
      → s.controllers c ≡ some k
      → Step s (enter t (unlocks_promise r c cs) (forget_receiver c k s))
  leaves_promise :
      (t r c : ℕ) (cs : List ℕ) (k : Controller)
      → s.phase t ≡ unlocks_promise r c cs
      → s.controllers c ≡ some k
      → Step s (enter t (breaks r cs) (release_mutex k.dispatch_mutex s))
  frees : (t r : ℕ) → s.phase t ≡ breaks r [] → Step s (enter t idle (free r s))

pub data Reach (s : Dispatches) : Dispatches → Type 0 where
  here : Reach s s
  next : {t u : Dispatches} → Reach s t → Step t u → Reach s u
