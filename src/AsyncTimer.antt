-- ===== src/AsyncTimer.antt =====
-- src/AsyncTimer.cc, and the dispatch of src/include/atscppapi/Async.h with one receiver: the timer
-- is the provider, and the promise that the receiver holds forgets the receiver when that dies. The
-- mutex of a dispatch is held for its whole length, so that a dispatch is one step here.
pub mod Pending
use atscppapi.Common.{ℕ, Bool, true, false, ◌==◌, Option, none, some, if◌then◌else◌, ◌+◌}

-- The continuations and actions of Traffic Server (ts/ts.h), and the receiver's method, which may
-- do anything to the world; it says whether the receiver is still alive afterwards. A method that
-- deletes the timer is not modelled.
pub record TimerApi : Type 1 where
  pub World : Type 0
  pub Action : Type 0
  -- TSContSchedule and TSContScheduleEvery with the milliseconds, TSActionCancel, TSContDestroy
  pub schedule : World → ℕ → Option Action × World
  pub schedule_every : World → ℕ → Option Action × World
  pub action_cancel : World → Action → World
  pub cont_destroy : World → World
  pub handle_async_complete : World → Bool × World

-- AsyncTimer::Type
pub data TimerType : Type 0 where
  type_one_off type_periodic : TimerType

-- AsyncTimerState; `event_receiver` says whether the dispatch controller still has its receiver,
-- and `completions` how often the receiver's method was called.
pub record Timer (ts : TimerApi) : Type 0 where
  pub type : TimerType
  pub period_in_ms : ℕ
  pub initial_period_in_ms : ℕ
  pub initial_timer_action : Option ts.Action
  pub periodic_timer_action : Option ts.Action
  pub event_receiver : Bool
  pub completions : ℕ
  pub world : ts.World

-- A timer that lives, or the world that a destroyed one left, with the completions it had.
pub data TimerLife (ts : TimerApi) : Type 0 where
  live : Timer ts → TimerLife ts
  destroyed : ts.World → ℕ → TimerLife ts

module _ {ts : TimerApi} where
  -- The constructor; the receiver is the one that `Async::execute` is called with.
  unfoldable pub new : TimerType → ℕ → ℕ → ts.World → Timer ts
  new type period_in_ms initial_period_in_ms world = record {
    type = type;
    period_in_ms = period_in_ms;
    initial_period_in_ms = initial_period_in_ms;
    initial_timer_action = none;
    periodic_timer_action = none;
    event_receiver = true;
    completions = 0;
    world = world;
  }

  unfoldable pub start_initial : ℕ → Timer ts → Timer ts
  start_initial timeout s =
      let (action, world) = ts.schedule s.world timeout in
      record s { initial_timer_action = action; world = world }

  unfoldable pub start_periodic : ℕ → Timer ts → Timer ts
  start_periodic timeout s =
      let (action, world) = ts.schedule_every s.world timeout in
      record s { periodic_timer_action = action; world = world }

  unfoldable pub one_off_timeout : Timer ts → ℕ
  one_off_timeout s = elim s.type [
    | type_one_off ↦ s.period_in_ms
    | type_periodic ↦ s.initial_period_in_ms
  ]

  unfoldable pub regular_timeout : Timer ts → ℕ
  regular_timeout s = elim s.type [ type_one_off ↦ 0 | type_periodic ↦ s.period_in_ms ]

  -- AsyncTimer::run
  unfoldable pub run : Timer ts → Timer ts
  unfolding one_off_timeout regular_timeout start_initial start_periodic
  run s =
      let one_off_timeout_in_ms = one_off_timeout s in
      let regular_timeout_in_ms = regular_timeout s in
      if one_off_timeout_in_ms == 0
      then (if regular_timeout_in_ms == 0 then s else start_periodic regular_timeout_in_ms s)
      else start_initial one_off_timeout_in_ms s

  unfoldable pub cancel_initial : Timer ts → Timer ts
  cancel_initial s = elim s.initial_timer_action [
    | none ↦ s
    | some action ↦ record s { world = ts.action_cancel s.world action }
  ]

  unfoldable pub cancel_periodic : Timer ts → Timer ts
  cancel_periodic s = elim s.periodic_timer_action [
    | none ↦ s
    | some action ↦ record s { world = ts.action_cancel s.world action }
  ]

  -- ~AsyncTimer
  unfoldable pub delete : Timer ts → ts.World
  unfolding cancel_initial cancel_periodic
  delete s = ts.cont_destroy (cancel_periodic (cancel_initial s)).world

  -- AsyncDispatchController::dispatch
  unfoldable pub dispatch : Timer ts → Bool × Timer ts
  dispatch s =
      let (alive, world) = ts.handle_async_complete s.world in
      if s.event_receiver
      then (
        true,
        record s { completions = s.completions + 1; event_receiver = alive; world = world },
      )
      else (false, s)

  -- ~AsyncReceiverPromise
  unfoldable pub forget_receiver : Timer ts → Timer ts
  forget_receiver s = record s { event_receiver = false }

  -- The part of `handleTimerEvent` for the initial event.
  unfoldable pub mark_initial : Timer ts → Timer ts
  unfolding start_periodic
  mark_initial s = elim s.initial_timer_action [
    | none ↦ s
    | some _ ↦ elim s.type [
      | type_one_off ↦ record s { initial_timer_action = none }
      | type_periodic ↦ start_periodic s.period_in_ms (record s { initial_timer_action = none })
    ]
  ]

  unfoldable pub handle_timer_event : Timer ts → TimerLife ts
  unfolding mark_initial dispatch delete
  handle_timer_event s =
      let (alive, t) = dispatch (mark_initial s) in
      if alive then live t else destroyed (delete t) t.completions
