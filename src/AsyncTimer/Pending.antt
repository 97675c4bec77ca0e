-- ===== src/AsyncTimer/Pending.antt =====
-- The actions that a timer has scheduled, over its life.
use atscppapi.Common.{none, List, [], ◌∷◌, ◌≡◌, ◌⊎◌}
use atscppapi.AsyncTimer.{
  TimerApi, Timer, type_one_off, TimerLife, live, destroyed, forget_receiver, handle_timer_event,
}

-- A timer event, or the death of the receiver in another place than its method.
pub data Event : Type 0 where
  timer_event receiver_dies : Event

module _ {ts : TimerApi} where
  -- A destroyed timer has no continuation any more, and so no events.
  unfoldable pub events : List Event → TimerLife ts → TimerLife ts
  unfolding handle_timer_event forget_receiver
  events [] t = t
  events (e ∷ es) (destroyed w n) = events es (destroyed w n)
  events (timer_event ∷ es) (live t) = events es (handle_timer_event t)
  events (receiver_dies ∷ es) (live t) = events es (live (forget_receiver t))

  -- One action at most is pending, and a one-off timer has no periodic one.
  pub record IsSingle (t : Timer ts) : Type 0 where
    pub not_both : (t.initial_timer_action ≡ none) ⊎ (t.periodic_timer_action ≡ none)
    pub one_off : t.type ≡ type_one_off → t.periodic_timer_action ≡ none

  abbrev pub IsSingleWhileAlive : TimerLife ts → Type 0
  IsSingleWhileAlive (live t) = IsSingle t
  IsSingleWhileAlive (destroyed w n) = Unit
