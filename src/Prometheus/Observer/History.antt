-- ===== src/Prometheus/Observer/History.antt =====
-- The series of prometheus/observer.go against a specification on the history of events.
use samsara_components.Prelude.{
  ℕ, ◌+◌, suc, String, Bool, false, ◌&&◌, ◌≡◌, refl, List, [], ◌∷◌, ◌++◌, map, Option, none, some,
  ℤ, str_eq, is_some, arith, count, if◌then◌else◌, or_else, or_else_assoc, or_else-none,
}
use mathlib.Core.List.{append_assoc, append-nil, map-append}
use samsara_components.Prometheus.Observer.{
  Vectors, Observer, Event, started, stopped, restarting, health_checked, new_observer, handle,
  replay,
}

-- The events of a component that each counter counts.
abbrev pub is_start : String → Event → Bool
is_start l (started c) = str_eq l c
is_start l _ = false

abbrev pub is_restart : String → Event → Bool
is_restart l (restarting c) = str_eq l c
is_restart l _ = false

abbrev pub is_stop_error : String → Event → Bool
is_stop_error l (stopped c err) = str_eq l c && is_some err
is_stop_error l _ = false

abbrev pub is_health_failure : String → Event → Bool
is_health_failure l (health_checked c d err) = str_eq l c && is_some err
is_health_failure l _ = false

-- What an event says of whether the component runs.
abbrev pub state_of : String → Event → Option ℕ
state_of l (started c) = if str_eq l c then some 1 else none
state_of l (stopped c err) = if str_eq l c then some 0 else none
state_of l (restarting c) = if str_eq l c then some 0 else none
state_of l (health_checked c d err) = none

-- What the last event that says so says of it.
abbrev pub last_state : String → List Event → Option ℕ
last_state l [] = none
last_state l (e ∷ es) = or_else (last_state l es) (state_of l e)

-- The durations of the health checks of a component, in nanoseconds, latest first.
abbrev pub durations_of : String → Event → List ℤ
durations_of l (health_checked c d err) = if str_eq l c then d ∷ [] else []
durations_of l _ = []

abbrev pub durations : String → List Event → List ℤ
durations l [] = []
durations l (e ∷ es) = durations l es ++ durations_of l e

module _ (v : Vectors) (l : String) where
  level-handle :
      (e : Event) (o : Observer v)
      → v.level l (handle v e o).up ≡ or_else (state_of l e) (v.level l o.up)
  unfolding handle
  level-handle (started c) o = ground (arith, v.level-set l c 1 o.up)
  level-handle (stopped c err) o = ground (arith, v.level-set l c 0 o.up)
  level-handle (restarting c) o = ground (arith, v.level-set l c 0 o.up)
  level-handle (health_checked c d err) o = refl

  level-replay :
      (es : List Event) (o : Observer v)
      → v.level l (replay v es o).up ≡ or_else (last_state l es) (v.level l o.up)
  unfolding replay
  level-replay [] o = refl
  level-replay (e ∷ es) o =
      rw (level-replay es (handle v e o), level-handle e o, or_else_assoc) refl

  samples-handle :
      (e : Event) (o : Observer v)
      → v.samples l (handle v e o).health_dur
        ≡ map v.seconds (durations_of l e) ++ v.samples l o.health_dur
  unfolding handle
  samples-handle (started c) o = refl
  samples-handle (stopped c err) o = refl
  samples-handle (restarting c) o = refl
  samples-handle (health_checked c d err) o =
      ground (arith, v.samples-observe l c (v.seconds d) o.health_dur)

  samples-replay :
      (es : List Event) (o : Observer v)
      → v.samples l (replay v es o).health_dur
        ≡ map v.seconds (durations l es) ++ v.samples l o.health_dur
  unfolding replay
  samples-replay [] o = refl
  samples-replay (e ∷ es) o =
      rw
        (
          samples-replay es (handle v e o),
          samples-handle e o,
          map-append v.seconds (durations l es) (durations_of l e),
          append_assoc,
        )
        refl

  starts-handle :
      (e : Event) (o : Observer v)
      → v.total l (handle v e o).starts
        ≡ (if is_start l e then suc (v.total l o.starts) else v.total l o.starts)
  unfolding handle
  starts-handle (started c) o = v.total-inc l c o.starts
  starts-handle (stopped c err) o = refl
  starts-handle (restarting c) o = refl
  starts-handle (health_checked c d err) o = refl

  restarts-handle :
      (e : Event) (o : Observer v)
      → v.total l (handle v e o).restarts
        ≡ (if is_restart l e then suc (v.total l o.restarts) else v.total l o.restarts)
  unfolding handle
  restarts-handle (started c) o = refl
  restarts-handle (stopped c err) o = refl
  restarts-handle (restarting c) o = v.total-inc l c o.restarts
  restarts-handle (health_checked c d err) o = refl

  stop_errors-handle :
      (e : Event) (o : Observer v)
      → v.total l (handle v e o).stop_errors
        ≡ (if is_stop_error l e then suc (v.total l o.stop_errors) else v.total l o.stop_errors)
  unfolding handle
  stop_errors-handle (started c) o = refl
  stop_errors-handle (stopped c none) o = ground arith
  stop_errors-handle (stopped c (some err)) o = ground (arith, v.total-inc l c o.stop_errors)
  stop_errors-handle (restarting c) o = refl
  stop_errors-handle (health_checked c d err) o = refl

  failures-handle :
      (e : Event) (o : Observer v)
      → v.total l (handle v e o).health_failure ≡ (
          if is_health_failure l e
          then suc (v.total l o.health_failure)
          else v.total l o.health_failure)
  unfolding handle
  failures-handle (started c) o = refl
  failures-handle (stopped c err) o = refl
  failures-handle (restarting c) o = refl
  failures-handle (health_checked c d none) o = ground arith
  failures-handle (health_checked c d (some err)) o =
      ground (arith, v.total-inc l c o.health_failure)

-- A series that counts the events which pass a test.
count-replay :
    (v : Vectors) (series : Observer v → ℕ) (p : Event → Bool)
    → ((e : Event) (o : Observer v)
        → series (handle v e o) ≡ (if p e then suc (series o) else series o))
    → (es : List Event) (o : Observer v) → series (replay v es o) ≡ count p es + series o
unfolding replay
count-replay v series p step [] o = omega arith
count-replay v series p step (e ∷ es) o =
    ground (arith, count-replay v series p step es (handle v e o), step e o)

counted :
    (v : Vectors) (series : Observer v → ℕ) (p : Event → Bool)
    → ((e : Event) (o : Observer v)
        → series (handle v e o) ≡ (if p e then suc (series o) else series o))
    → (es : List Event) → series (new_observer v) ≡ 0
    → series (replay v es (new_observer v)) ≡ count p es
counted v series p step es z = omega (arith, count-replay v series p step es (new_observer v))

-- The series that the observer exposes for a component say what the history says.
pub record Shows (v : Vectors) (es : List Event) (l : String) (o : Observer v) : Type 0 where
  pub up : v.level l o.up ≡ last_state l es
  pub starts : v.total l o.starts ≡ count (is_start l) es
  pub restarts : v.total l o.restarts ≡ count (is_restart l) es
  pub stop_errors : v.total l o.stop_errors ≡ count (is_stop_error l) es
  pub health_dur : v.samples l o.health_dur ≡ map v.seconds (durations l es)
  pub health_failure : v.total l o.health_failure ≡ count (is_health_failure l) es

-- After any history of supervisor events, the observer shows for every component: up as the last start,
-- stop or restart of it says, or no value where there was none; as many starts, restarts, failed stops
-- and failed health checks as the history holds; and the duration of every health check, in seconds.
pub replay-Shows :
    (v : Vectors) (es : List Event) (l : String) → Shows v es l (replay v es (new_observer v))
unfolding new_observer
replay-Shows v es l = record {
  up = rw (level-replay v l es (new_observer v), v.level-gauge l) (or_else-none (last_state l es));
  starts = counted v _ (is_start l) (starts-handle v l) es (v.total-counter l);
  restarts = counted v _ (is_restart l) (restarts-handle v l) es (v.total-counter l);
  stop_errors = counted v _ (is_stop_error l) (stop_errors-handle v l) es (v.total-counter l);
  health_dur = rw (samples-replay v l es (new_observer v), v.samples-histogram l, append-nil) refl;
  health_failure = counted v _ (is_health_failure l) (failures-handle v l) es (v.total-counter l);
}
