-- ===== src/Tests/Lifecycles.antt =====
-- Schedules of the threads of package redis, and of Runner.
use samsara_components.Prelude.{
  ℕ, zero, suc, false, true, ◌≡◌, ◌≢◌, refl, ◌⊎◌, List, [], ◌∷◌, Option, none, some, arith,
}
use samsara_components.Go.Handles.{Outcome, ready}
use samsara_components.Go.Tls.{client_config}
use samsara_components.Runner as Threads
use samsara_components.Runner.{Action, call_start, call_stop, step, returned, new, move}
use samsara_components.Runner.Lending.{taken}
use samsara_components.Runner.Signals.{role_of, machine}
use samsara_components.Runner.Progress.{stop_ends_start}
use samsara_components.Runner.Missed.{overtaken, stop_during_connect}
use samsara_components.Protocol.Calm.{held}
use samsara_components.Protocol.Wakeup.{StartsApart}
use samsara_components.Redis.Config.{Options, tls_config}
use samsara_components.Redis.Connect.{Library, start}
use samsara_components.Redis.Lifecycle.{connect, run, run_client}
use samsara_components.Redis.Lifecycle.Wakeup.{run-IsWatched}
use samsara_components.Tests.Settings.{all_files, cache}

-- The first Start finds no option; one has been added before the second.
abbrev added_later : ℕ → List (Options → Options)
added_later zero = []
added_later (suc i) = (λ o. o) ∷ []

-- Each Start makes a client of its own, which answers.
abbrev clients : ℕ → Library
clients i = record { new_client = λ o. i; ping = λ client. none }

-- Thread 0 starts; threads 1 and 2 stop at the same time; and thread 3 starts again.
abbrev two_stops : List (ℕ × Action)
two_stops =
    (0, call_start)
    ∷ (0, step false)
    ∷ (1, call_stop)
    ∷ (2, call_stop)
    ∷ (2, step false)
    ∷ (1, step false)
    ∷ (1, step false)
    ∷ (2, step false)
    ∷ (0, step false)
    ∷ (3, call_start)
    ∷ (3, step false)
    ∷ []

run_client_example :
    let w = run clients (λ i. all_files) cache added_later two_stops in
    (w.open_handles 3 ≡ true) × ((i : ℕ) → taken (w.pc i) ≢ some 3) × (w.panicked ≡ false)
unfolding run connect start tls_config client_config
run_client_example =
    run_client clients (λ i. all_files) cache added_later two_stops 3 (λ i j p q e. e) refl

abbrev started : List (ℕ × Action)
started = (0, call_start) ∷ (0, step false) ∷ []

started-StartsApart :
    StartsApart (machine (connect clients (λ i. all_files) cache added_later)) new started
unfolding move new connect start tls_config client_config
started-StartsApart = (λ e j. refl, (λ e. cc, tt))

run-IsWatched_example :
    let w = run clients (λ i. all_files) cache added_later started in
    (1 ≡ w.stop_ch)
    ⊎ ((j : ℕ) × (held (role_of (w.pc j)) ≡ some 1))
    ⊎ ((move (connect clients (λ i. all_files) cache added_later) w (0, step false)).pc 0
        ≡ returned)
unfolding run connect start tls_config client_config
run-IsWatched_example =
    run-IsWatched clients (λ i. all_files) cache added_later started 0 1 started-StartsApart refl

abbrev one_each : ℕ → Option Outcome
one_each i = some (ready i)

-- Thread 1 has been called to stop. It takes its steps, while thread 2 starts again.
abbrev stopped_meanwhile : List (ℕ × Action)
stopped_meanwhile =
    (1, step false) ∷ (2, call_start) ∷ (1, step false) ∷ (2, step false) ∷ (1, step false) ∷ []

abbrev started_once : List (ℕ × Action)
started_once = (0, call_start) ∷ (0, step false) ∷ []

stop_ends_start_example :
    let w' =
      Threads.run one_each
        (move one_each (Threads.run one_each new started_once) (1, call_stop))
        stopped_meanwhile in
    (w'.pc 1 ≡ returned) × ((move one_each w' (0, step false)).pc 0 ≡ returned)
unfolding Threads.run new
stop_ends_start_example =
    stop_ends_start one_each (Threads.run one_each new started_once) 0 1 stopped_meanwhile refl refl
      (omega arith)

abbrev connecting_first : List (ℕ × Action)
connecting_first = (0, call_start) ∷ []

stop_during_connect_example :
    let w = Threads.run one_each (Threads.run one_each new connecting_first) (overtaken 0 1) in
    (w.pc 1 ≡ returned) × (w.pc 0 ≡ returned) × (w.handle ≡ some 0) × (w.open_handles 0 ≡ true)
unfolding Threads.run new
stop_during_connect_example =
    stop_during_connect one_each (Threads.run one_each new connecting_first) 0 1 0 refl refl refl
      refl refl refl (omega arith)
