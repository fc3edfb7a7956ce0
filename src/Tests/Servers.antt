-- ===== src/Tests/Servers.antt =====
-- Schedules of the threads of package grpc.
use samsara_components.Prelude.{ℕ, true, false, ◌≡◌, ◌≤◌, refl, List, [], ◌∷◌, ◌++◌, some, arith}
use samsara_components.Grpc.Lifecycle.{
  Action, call_start, call_stop, spawn, serve_returns, serving, wait, new, run, returned,
}
use samsara_components.Grpc.Lifecycle.Once.{run-drains_once}
use samsara_components.Grpc.Lifecycle.Missed.{overtaken, missed_stop}
use samsara_components.Grpc.Lifecycle.Race.{race, race_panics}

-- Thread 0 starts, and spawns the watcher in thread 1.
abbrev up : List (ℕ × Action)
up = (0, call_start) ∷ (0, wait false) ∷ (0, spawn 1) ∷ []

-- The context is cancelled, and the supervisor then calls Stop.
abbrev cancelled_then_stopped : List (ℕ × Action)
cancelled_then_stopped =
    (1, wait true)
    ∷ (1, wait true)
    ∷ (1, wait true)
    ∷ (1, wait true)
    ∷ (1, wait true)
    ∷ (1, wait true)
    ∷ (2, call_stop)
    ∷ (2, wait false)
    ∷ (0, serve_returns false)
    ∷ (0, wait true)
    ∷ []

drained : (run new (up ++ cancelled_then_stopped)).graceful 0 ≡ 1
unfolding run new
drained = refl

all_return :
    ((run new (up ++ cancelled_then_stopped)).pc 0 ≡ returned)
    × ((run new (up ++ cancelled_then_stopped)).pc 1 ≡ returned)
    × ((run new (up ++ cancelled_then_stopped)).pc 2 ≡ returned)
    × ((run new (up ++ cancelled_then_stopped)).panicked ≡ false)
unfolding run new
all_return = (refl, refl, refl, refl)

run-drains_once_example :
    ((run new (up ++ cancelled_then_stopped)).graceful 0 ≤ 1)
    × ((run new (up ++ cancelled_then_stopped)).forced 0
        ≤ (run new (up ++ cancelled_then_stopped)).graceful 0)
run-drains_once_example = run-drains_once (up ++ cancelled_then_stopped) 0

race_panics_example : (run (run new up) (race 1 2)).panicked ≡ true
unfolding run new
race_panics_example = race_panics (run new up) 1 2 refl refl refl refl (omega arith)

abbrev preparing_first : List (ℕ × Action)
preparing_first = (0, call_start) ∷ []

missed_stop_example :
    let w = run (run new preparing_first) (overtaken 0 1 2) in
    (w.pc 1 ≡ returned)
    × (w.pc 0 ≡ serving 1)
    × (w.pc 2 ≡ returned)
    × (w.server ≡ some 0)
    × (w.graceful 0 ≡ 0)
    × (w.is_serving ≡ true)
unfolding run new
missed_stop_example =
    missed_stop (run new preparing_first) 0 1 2 refl refl refl refl refl refl refl refl
      (omega arith)
