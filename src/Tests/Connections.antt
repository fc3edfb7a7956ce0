-- ===== src/Tests/Connections.antt =====
-- Runs of Start of package rabbitmq, and schedules of its threads.
use samsara_components.Prelude.{
  ℕ, false, true, ◌≡◌, ◌<◌, ◌⊎◌, refl, List, [], ◌∷◌, none, inl, inr, arith,
}
use samsara_components.Rabbitmq.Component.Dial.{dialled}
use samsara_components.Rabbitmq.Component.Start.{start, IsSound, start-IsSound}
use samsara_components.Rabbitmq.Lifecycle.{
  Action, call_start, call_stop, call_subscribe, bound, step, returned, new, move, run,
}
use samsara_components.Rabbitmq.Lifecycle as Lifecycle
use samsara_components.Rabbitmq.Lifecycle.Progress.{leave, stop_closes_conn}
use samsara_components.Rabbitmq.Lifecycle.Revoke.{run-revokes}
use samsara_components.Rabbitmq.Lifecycle.Revoke.Covered.{IsSingle}
use samsara_components.Rabbitmq.Lifecycle.Revoke.Consumers.{is_started}
use samsara_components.Tests.Messaging.{refusing, component}

-- A broker that refuses the first exchange.
start-IsSound_example :
    IsSound refusing "10s"
      (λ conn. inr 9)
      4
      component
      []
      (start refusing "10s" (λ conn. inr 9) 4 1 dialled (inr 8) component [])
start-IsSound_example =
    start-IsSound refusing "10s" (λ conn. inr 9) 4 1 dialled (inr 8) component [] (λ l. l)

-- Thread 0 starts, thread 2 subscribes; thread 1 stops, as far as the closing of the connection.
abbrev stopped_early : List (ℕ × Action)
stopped_early =
    (0, call_start)
    ∷ (0, Lifecycle.dialled true)
    ∷ (2, call_subscribe)
    ∷ (2, bound)
    ∷ (1, call_stop)
    ∷ (0, bound)
    ∷ (1, step false)
    ∷ (1, step false)
    ∷ (1, step false)
    ∷ []

stopped_early-IsSingle : IsSingle new stopped_early
unfolding move new
stopped_early-IsSingle = (
  λ j e. refl,
  (
    λ j e. cc,
    (λ j e. cc, (λ j e. cc, (λ j e. cc, (λ j e. cc, (λ j e. cc, (λ j e. cc, (λ j e. cc, tt))))))),
  ),
)

run-revokes_example :
    ((run new stopped_early).cancelled 0 ≡ true)
    × ((r' : ℕ)
        → is_started 0 r' (run new stopped_early).consumers ≡ true
        → ((run new stopped_early).cancelled r' ≡ true) ⊎ (0 < r'))
    × ((run new stopped_early).panicked ≡ false)
run-revokes_example =
    run-revokes stopped_early 1 0 0 stopped_early-IsSingle (inl (unfold run new in refl))
      (unfold run new in refl)

abbrev connected : List (ℕ × Action)
connected = (0, call_start) ∷ (0, Lifecycle.dialled true) ∷ (0, bound) ∷ []

-- Thread 1 has been called to stop. It takes its steps, while thread 2 starts again, and thread 0 leaves.
abbrev stopped_meanwhile : List (ℕ × Action)
stopped_meanwhile =
    (1, step false)
    ∷ (2, call_start)
    ∷ (1, step false)
    ∷ (1, step false)
    ∷ (0, step false)
    ∷ (2, Lifecycle.dialled true)
    ∷ (1, step false)
    ∷ []

stop_closes_conn_example :
    let w' = run (move (run new connected) (1, call_stop)) stopped_meanwhile in
    (w'.pc 1 ≡ returned)
    × (w'.open_under 0 ≡ none)
    × ((run w' (leave 0)).pc 0 ≡ returned)
    × ((run w' (leave 0)).cancelled 0 ≡ true)
unfolding run new
stop_closes_conn_example =
    stop_closes_conn (run new connected) 0 1 0 0 stopped_meanwhile refl refl (omega arith) refl
      (omega arith)
