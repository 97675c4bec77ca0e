-- ===== src/Async/Moves.antt =====
-- Each step keeps what is true of the threads.
use atscppapi.Common.{
  ℕ, true, false, ◌++◌, Option, none, some, List, [], ◌∷◌, ◌≡◌, ◌≢◌, refl, sym, ap, ◌∙◌, inl, inr,
  subst,
}
use atscppapi.Async.{
  Controller, Dispatches, Phase, idle, breaks, unlocks_promise, set_at, execute, take_mutex,
  release_mutex, forget_receiver, start_dying, free, enter, start,
}
use atscppapi.Async.Threads.{
  set_at-same, set_at-other, same_or_other, Among, Covers, Holds, Dies, Frame, Fits, Frame-Fits,
  Frame-Dies,
}
use atscppapi.Async.Frames.{
  true_not_false, Frame-refl, Frame-take_mutex, Frame-release_mutex, Frame-forget_receiver,
  Frame-start_dying, Frame-execute, Frame-free, not_none, same_some, set_at_cases,
}

pub record IsSafe (s : Dispatches) : Type 0 where
  pub fits : (t : ℕ) → Fits s t (s.phase t)
  pub freed : (r : ℕ) → s.freed r ≡ true → Dies s r []
  pub promised : (r : ℕ) → s.dying r ≡ false → Covers s r (s.receiver_promises r)

pub start-IsSafe : IsSafe start
start-IsSafe = record {
  fits = λ t. tt;
  freed = λ r e. absurd (true_not_false e refl);
  promised = λ r e c k h. absurd (not_none refl h);
}

-- What the mover must have at its new place, by the equation of the place it was at.
pub placed : (s : Dispatches) (t : ℕ) (p : Phase) → IsSafe s → s.phase t ≡ p → Fits s t p
placed s t p h e = subst (Fits s t) e (h.fits t)

Fits-enter :
    (t t' : ℕ) (p : Phase) (s u : Dispatches)
    → IsSafe s
    → ((x : ℕ) → u.phase x ≡ s.phase x)
    → Frame (λ x. x ≢ t) s u
    → Fits u t p
    → Fits u t' (set_at u.phase t p t')
Fits-enter t t' p s u h phases f mine = elim (same_or_other t' t) [
  | inl same ↦
      subst (λ x. Fits u x (set_at u.phase t p x)) (sym same)
        (subst (Fits u t) (sym (set_at-same u.phase t p)) mine)
  | inr other ↦
      subst (Fits u t') (sym (set_at-other u.phase t t' p other ∙ phases t'))
        (Frame-Fits f t' (s.phase t') other (h.fits t'))
]

Frame-enter : (t : ℕ) (p : Phase) (s : Dispatches) → Frame (λ x. Unit) s (enter t p s)
unfolding enter
Frame-enter t p s = record {
  holders = λ t m p h. h;
  kept = λ t c k p h held. h;
  covered = λ r cs d h. h;
  dying = λ r h. h;
}

-- A thread that changes the state within the frame of the others, and comes to a place that fits.
entered :
    (t : ℕ) (p : Phase) (s u : Dispatches)
    → IsSafe s
    → ((x : ℕ) → u.phase x ≡ s.phase x)
    → Frame (λ x. x ≢ t) s u
    → Fits u t p
    → ((r : ℕ) → u.freed r ≡ true → Dies u r [])
    → ((r : ℕ) → u.dying r ≡ false → Covers u r (u.receiver_promises r))
    → IsSafe (enter t p u)
unfolding enter
entered t p s u h phases f mine freed promised = record {
  fits = λ t'.
      Frame-Fits (Frame-enter t p u) t' (set_at u.phase t p t') tt
        (Fits-enter t t' p s u h phases f mine);
  freed = freed;
  promised = promised;
}

-- A step that changes nothing but the place.
pub moved : (t : ℕ) (p : Phase) (s : Dispatches) → IsSafe s → Fits s t p → IsSafe (enter t p s)
moved t p s h mine =
    entered t p s s h (λ x. refl) (Frame-refl (λ x. x ≢ t) s) mine h.freed h.promised

pub takes :
    (t c : ℕ) (p : Phase) (k : Controller) (s : Dispatches)
    → IsSafe s
    → s.controllers c ≡ some k
    → s.holder k.dispatch_mutex ≡ none
    → Fits (take_mutex k.dispatch_mutex t s) t p
    → IsSafe (enter t p (take_mutex k.dispatch_mutex t s))
unfolding take_mutex
takes t c p k s h at_c free_mutex mine =
    entered t p s (take_mutex k.dispatch_mutex t s) h (λ x. refl)
      (Frame-take_mutex (λ x. x ≢ t) k.dispatch_mutex t s free_mutex) mine h.freed h.promised

pub taken_Holds :
    (t c : ℕ) (k : Controller) (s : Dispatches)
    → s.controllers c ≡ some k
    → Holds (take_mutex k.dispatch_mutex t s) t c
unfolding take_mutex
taken_Holds t c k s at_c = (k, (at_c, set_at-same s.holder k.dispatch_mutex (some t)))

-- The thread holds the mutex of the controller that it finds at the address.
pub held_mutex :
    (t c : ℕ) (k : Controller) (s : Dispatches)
    → Holds s t c
    → s.controllers c ≡ some k
    → s.holder k.dispatch_mutex ≡ some t
held_mutex t c k s (k', (at_c', held)) at_c =
    subst (λ x. s.holder (Controller.dispatch_mutex x) ≡ some t) (same_some at_c' at_c) held

pub releases :
    (t c : ℕ) (p : Phase) (k : Controller) (s : Dispatches)
    → IsSafe s
    → Holds s t c
    → s.controllers c ≡ some k
    → Fits (release_mutex k.dispatch_mutex s) t p
    → IsSafe (enter t p (release_mutex k.dispatch_mutex s))
unfolding release_mutex
releases t c p k s h holds at_c mine =
    entered t p s (release_mutex k.dispatch_mutex s) h (λ x. refl)
      (Frame-release_mutex k.dispatch_mutex t s (held_mutex t c k s holds at_c)) mine h.freed
      h.promised

-- Once the controller has forgotten its receiver, the others cover what is left.
forgotten-Covers :
    (c r : ℕ) (cs : List ℕ) (k : Controller) (s : Dispatches)
    → Covers s r (c ∷ cs)
    → Covers (forget_receiver c k s) r cs
unfolding forget_receiver
forgotten-Covers c r cs k s h c' k' at_c' has =
    elim (set_at_cases s.controllers c c' _ (some k') at_c') [
      | inl (same, e) ↦
          absurd (not_none (sym (ap Controller.event_receiver (same_some refl e))) has)
      | inr (other, e) ↦ elim (h c' k' e has) [ inl same ↦ absurd (other same) | inr rest ↦ rest ]
    ]

kept-Covers :
    (c r : ℕ) (cs : List ℕ) (k : Controller) (s : Dispatches)
    → Covers s r cs
    → Covers (forget_receiver c k s) r cs
kept-Covers c r cs k s h = forgotten-Covers c r cs k s (λ c' k' e has. inr (h c' k' e has))

pub forgets_safely :
    (t r c : ℕ) (cs : List ℕ) (k : Controller) (s : Dispatches)
    → IsSafe s
    → Holds s t c
    → Dies s r (c ∷ cs)
    → s.controllers c ≡ some k
    → IsSafe (enter t (unlocks_promise r c cs) (forget_receiver c k s))
unfolding forget_receiver
forgets_safely t r c cs k s h holds dies at_c =
    let held = held_mutex t c k s holds at_c in
    entered t (unlocks_promise r c cs) s (forget_receiver c k s) h (λ x. refl)
      (Frame-forget_receiver c t k s at_c held)
      ((_, (set_at-same s.controllers c _, held)), (dies.0, forgotten-Covers c r cs k s dies.1))
      (λ r' e. let d = h.freed r' e in (d.0, kept-Covers c r' [] k s d.1))
      (λ r' e. kept-Covers c r' (s.receiver_promises r') k s (h.promised r' e))

pub dies_safely :
    (t r : ℕ) (s : Dispatches)
    → IsSafe s
    → s.dying r ≡ false
    → IsSafe (enter t (breaks r (s.receiver_promises r)) (start_dying r s))
unfolding start_dying
dies_safely t r s h lives =
    let f = Frame-start_dying (λ x. x ≢ t) r s in
    entered t (breaks r (s.receiver_promises r)) s (start_dying r s) h (λ x. refl) f
      (set_at-same s.dying r true, h.promised r lives) (λ r' e. Frame-Dies f r' [] (h.freed r' e))
      (λ r' e. elim (set_at_cases s.dying r r' true false e) [
        | inl (same, x) ↦ absurd (true_not_false refl x)
        | inr (other, x) ↦ h.promised r' x
      ])

pub frees_safely :
    (t r : ℕ) (s : Dispatches) → IsSafe s → Dies s r [] → IsSafe (enter t idle (free r s))
unfolding free
frees_safely t r s h dies =
    entered t idle s (free r s) h (λ x. refl) (Frame-free (λ x. x ≢ t) r s) tt
      (λ r' e. elim (set_at_cases s.freed r r' true true e) [
        | inl (same, x) ↦ subst (λ y. Dies s y []) (sym same) dies
        | inr (other, x) ↦ h.freed r' x
      ])
      h.promised

Among-append : (c : ℕ) (cs ds : List ℕ) → Among c cs → Among c (cs ++ ds)
Among-append c [] ds h = absurd h
Among-append c (d ∷ cs) ds (inl e) = inl e
Among-append c (d ∷ cs) ds (inr h) = inr (Among-append c cs ds h)

Among-last : (c d : ℕ) (cs : List ℕ) → c ≡ d → Among c (cs ++ d ∷ [])
Among-last c d [] e = inl e
Among-last c d (x ∷ cs) e = inr (Among-last c d cs e)

-- A promise more for one receiver takes none from any.
promise_added :
    (f : ℕ → List ℕ) (r r' c c' : ℕ) → Among c' (f r') → Among c' (set_at f r (f r ++ c ∷ []) r')
promise_added f r r' c c' h = elim (same_or_other r' r) [
  | inl same ↦
      subst (λ x. Among c' (set_at f r (f r ++ c ∷ []) x)) (sym same)
        (subst (Among c') (sym (set_at-same f r (f r ++ c ∷ [])))
          (Among-append c' (f r) (c ∷ []) (subst (λ x. Among c' (f x)) same h)))
  | inr other ↦ subst (Among c') (sym (set_at-other f r r' (f r ++ c ∷ []) other)) h
]

pub executes_safely :
    (r provider new_mutex c : ℕ) (mutex : Option ℕ) (s : Dispatches)
    → IsSafe s
    → s.dying r ≡ false
    → s.controllers c ≡ none
    → IsSafe (execute r provider mutex new_mutex c s)
unfolding execute
executes_safely r provider new_mutex c mutex s h lives fresh =
    let f = Frame-execute (λ x. Unit {0}) r provider new_mutex c mutex s lives fresh in
    record {
      fits = λ t. Frame-Fits f t (s.phase t) tt (h.fits t);
      freed = λ r' e. Frame-Dies f r' [] (h.freed r' e);
      promised = λ r' e c' k' at_c' has. elim (set_at_cases s.controllers c c' _ (some k') at_c') [
        | inl (same, x) ↦
            let r_same = same_some (sym (ap Controller.event_receiver (same_some refl x))) has in
            subst (λ y. Among c' (set_at s.receiver_promises r (s.receiver_promises r ++ c ∷ []) y))
              r_same
              (subst (Among c')
                (sym (set_at-same s.receiver_promises r (s.receiver_promises r ++ c ∷ [])))
                (Among-last c' c (s.receiver_promises r) same))
        | inr (other, x) ↦ promise_added s.receiver_promises r r' c c' (h.promised r' e c' k' x has)
      ];
    }
