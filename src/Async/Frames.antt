-- ===== src/Async/Frames.antt =====
-- Each change of the state leaves what the other threads rely on.
use atscppapi.Common.{
  ℕ, Bool, true, false, Option, none, some, ◌≡◌, ◌≢◌, refl, sym, ap, ◌∙◌, ◌⊎◌, inl, inr, subst,
  arith,
}
use atscppapi.Async.{
  Controller, Dispatches, set_at, execute, take_mutex, release_mutex, forget_receiver, start_dying,
  free,
}
use atscppapi.Async.Threads.{set_at-same, set_at-other, same_or_other, Frame}

pub not_none : {A : Type 0} {o : Option A} {a : A} → o ≡ none → o ≡ some a → ⊥
not_none e h = ground arith

pub true_not_false : {b : Bool} → b ≡ true → b ≡ false → ⊥
true_not_false e h = ground arith

pub not_freed : {b : Bool} → (b ≡ true → ⊥) → b ≡ false
not_freed h = ground arith

pub same_some : {A : Type 0} {o : Option A} {a b : A} → o ≡ some a → o ≡ some b → a ≡ b
same_some e h = cc

-- An entry of a changed function is the new one, or an old one.
pub set_at_cases :
    {A : Type 0} (f : ℕ → A) (x y : ℕ) (v w : A)
    → set_at f x v y ≡ w
    → ((y ≡ x) × (v ≡ w)) ⊎ ((y ≢ x) × (f y ≡ w))
set_at_cases f x y v w e = elim (same_or_other y x) [
  | inl same ↦ inl (same, sym (subst (λ a. set_at f x v a ≡ v) (sym same) (set_at-same f x v)) ∙ e)
  | inr other ↦ inr (other, sym (set_at-other f x y v other) ∙ e)
]

pub Frame-refl : (P : ℕ → Type 0) (s : Dispatches) → Frame P s s
Frame-refl P s = record {
  holders = λ t m p h. h;
  kept = λ t c k p h held. h;
  covered = λ r cs d h. h;
  dying = λ r h. h;
}

pub Frame-take_mutex :
    (P : ℕ → Type 0) (m t : ℕ) (s : Dispatches) → s.holder m ≡ none → Frame P s (take_mutex m t s)
unfolding take_mutex
Frame-take_mutex P m t s free_mutex = record {
  holders = λ t' m' p h. elim (same_or_other m' m) [
    | inl same ↦ absurd (not_none (subst (λ x. s.holder x ≡ none) (sym same) free_mutex) h)
    | inr other ↦ set_at-other s.holder m m' (some t) other ∙ h
  ];
  kept = λ t' c k p h held. h;
  covered = λ r cs d h. h;
  dying = λ r h. h;
}

pub Frame-release_mutex :
    (m t : ℕ) (s : Dispatches) → s.holder m ≡ some t → Frame (λ t'. t' ≢ t) s (release_mutex m s)
unfolding release_mutex
Frame-release_mutex m t s held = record {
  holders = λ t' m' p h. elim (same_or_other m' m) [
    | inl same ↦ absurd (p (same_some h (subst (λ x. s.holder x ≡ some t) (sym same) held)))
    | inr other ↦ set_at-other s.holder m m' none other ∙ h
  ];
  kept = λ t' c k p h held. h;
  covered = λ r cs d h. h;
  dying = λ r h. h;
}

pub Frame-forget_receiver :
    (c t : ℕ) (k : Controller) (s : Dispatches)
    → s.controllers c ≡ some k
    → s.holder k.dispatch_mutex ≡ some t
    → Frame (λ t'. t' ≢ t) s (forget_receiver c k s)
unfolding forget_receiver
Frame-forget_receiver c t k s at_c held = record {
  holders = λ t' m' p h. h;
  kept = λ t' c' k' p h held'. elim (same_or_other c' c) [
    | inl same ↦
        let k_same = same_some (subst (λ x. s.controllers x ≡ some k') same h) at_c in
        absurd (
          p (
            same_some (subst (λ x. s.holder (Controller.dispatch_mutex x) ≡ some t') k_same held')
              held))
    | inr other ↦ set_at-other s.controllers c c' _ other ∙ h
  ];
  covered = λ r cs d h c' k' at_c' has. elim (set_at_cases s.controllers c c' _ (some k') at_c') [
    | inl (same, e) ↦ absurd (not_none (sym (ap Controller.event_receiver (same_some refl e))) has)
    | inr (other, e) ↦ h c' k' e has
  ];
  dying = λ r h. h;
}

pub Frame-start_dying : (P : ℕ → Type 0) (r : ℕ) (s : Dispatches) → Frame P s (start_dying r s)
unfolding start_dying
Frame-start_dying P r s = record {
  holders = λ t m p h. h;
  kept = λ t c k p h held. h;
  covered = λ r' cs d h. h;
  dying = λ r' h. elim (same_or_other r' r) [
    | inl same ↦ subst (λ x. set_at s.dying r true x ≡ true) (sym same) (set_at-same s.dying r true)
    | inr other ↦ set_at-other s.dying r r' true other ∙ h
  ];
}

pub Frame-execute :
    (P : ℕ → Type 0) (r provider new_mutex c : ℕ) (mutex : Option ℕ) (s : Dispatches)
    → s.dying r ≡ false
    → s.controllers c ≡ none
    → Frame P s (execute r provider mutex new_mutex c s)
unfolding execute
Frame-execute P r provider new_mutex c mutex s lives fresh = record {
  holders = λ t m p h. h;
  kept = λ t c' k p h held. elim (same_or_other c' c) [
    | inl same ↦ absurd (not_none (subst (λ x. s.controllers x ≡ none) (sym same) fresh) h)
    | inr other ↦ set_at-other s.controllers c c' _ other ∙ h
  ];
  covered = λ r' cs d h c' k' at_c' has. elim (set_at_cases s.controllers c c' _ (some k') at_c') [
    | inl (same, e) ↦
        let r_same = same_some (sym (ap Controller.event_receiver (same_some refl e))) has in
        absurd (true_not_false (subst (λ x. s.dying x ≡ true) (sym r_same) d) lives)
    | inr (other, e) ↦ h c' k' e has
  ];
  dying = λ r h. h;
}

pub Frame-free : (P : ℕ → Type 0) (r : ℕ) (s : Dispatches) → Frame P s (free r s)
unfolding free
Frame-free P r s = record {
  holders = λ t m p h. h;
  kept = λ t c k p h held. h;
  covered = λ r' cs d h. h;
  dying = λ r' h. h;
}
