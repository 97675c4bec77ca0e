-- ===== src/Tests/Dispatches.antt =====
-- A dispatch that reaches its receiver.
use atscppapi.Common.{false, none, some, ◌≡◌, ◌≢◌, refl, arith}
use atscppapi.Async.{
  Controller, Dispatches, start, executes, starts_dispatch, locks_mutex, calls_receiver, Reach,
  here, next, execute, enter, take_mutex, set_at, locks, checks, calls,
}
use atscppapi.Async.Threads.{HoldsFor}
use atscppapi.Async.Alive.{called_alive, called_alone}

abbrev controller : Controller
controller = record { event_receiver = some 5; dispatch_mutex = 7; provider = 9 }

abbrev other_controller : Controller
other_controller = record { event_receiver = some 6; dispatch_mutex = 8; provider = 9 }

abbrev executed : Dispatches
executed = execute 6 9 (some 8) 0 2 (execute 5 9 none 7 1 start)

abbrev first_calls : Dispatches
first_calls = enter 0 (calls 1 5) (enter 0 (checks 1) (take_mutex 7 0 (enter 0 (locks 1) executed)))

abbrev both_call : Dispatches
both_call =
    enter 1 (calls 2 6) (enter 1 (checks 2) (take_mutex 8 1 (enter 1 (locks 2) first_calls)))

executed_reached : Reach start executed
unfolding execute set_at
executed_reached =
    next (next here (executes 5 9 7 1 none refl refl)) (executes 6 9 0 2 (some 8) refl refl)

first_reached : Reach start first_calls
unfolding execute set_at enter take_mutex
first_reached =
    next
      (next (next executed_reached (starts_dispatch 0 1 refl))
        (locks_mutex 0 1 controller refl refl refl))
      (calls_receiver 0 1 5 controller refl refl refl)

both_reached : Reach start both_call
unfolding execute set_at enter take_mutex
both_reached =
    next
      (next (next first_reached (starts_dispatch 1 2 refl))
        (locks_mutex 1 2 other_controller refl refl refl))
      (calls_receiver 1 2 6 other_controller refl refl refl)

called_alive_example : (both_call.freed 5 ≡ false) × HoldsFor both_call 0 1 5
unfolding execute set_at enter take_mutex
called_alive_example = called_alive both_reached 0 1 5 refl

called_alone_example : controller.dispatch_mutex ≢ other_controller.dispatch_mutex
unfolding execute set_at enter take_mutex
called_alone_example =
    called_alone both_reached 0 1 1 2 5 6 controller other_controller refl refl refl refl
      (omega arith)
