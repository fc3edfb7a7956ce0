-- ===== src/Prometheus/Observer.antt =====
-- prometheus/observer.go: the supervisor's events as updates of metric vectors.
pub mod History
use samsara_components.Prelude.{
  ℕ, suc, ◌*◌, ◌<◌, pos, String, ◌≡◌, List, [], ◌∷◌, Option, none, some, ℤ, str_eq, if◌then◌else◌,
}
use samsara_components.Go.Errors.{Error}

-- The vectors of client_golang, by the one label `component`: a gauge is read as the value that was set
-- last, a counter as a number from zero on, a histogram as the samples observed, latest first. Counters
-- are taken below 2^53, where a float64 counts exactly. `Sample` is float64, with its conversion from a
-- Duration, and `seconds` is Duration.Seconds, which is exact on whole seconds.
pub record Vectors : Type 1 where
  pub Gauge : Type 0
  pub Counter : Type 0
  pub Histogram : Type 0
  pub Sample : Type 0
  pub of_duration : ℤ → Sample
  pub seconds : (duration : ℤ) → Sample
  pub gauge : Gauge
  pub counter : Counter
  pub histogram : Histogram
  pub set : String → ℕ → Gauge → Gauge
  pub inc : String → Counter → Counter
  pub observe : String → Sample → Histogram → Histogram
  pub level : String → Gauge → Option ℕ
  pub total : String → Counter → ℕ
  pub samples : String → Histogram → List Sample
  pub level-gauge : (l : String) → level l gauge ≡ none
  pub total-counter : (l : String) → total l counter ≡ 0
  pub samples-histogram : (l : String) → samples l histogram ≡ []
  pub level-set :
      (l k : String) (n : ℕ) (g : Gauge)
      → level l (set k n g) ≡ (if str_eq l k then some n else level l g)
  pub total-inc :
      (l k : String) (c : Counter)
      → total l (inc k c) ≡ (if str_eq l k then suc (total l c) else total l c)
  pub seconds-whole :
      (n : ℕ)
      → n * 1_000_000_000 < 9223372036854775808
      → seconds (pos (n * 1_000_000_000)) ≡ of_duration (pos n)
  pub samples-observe :
      (l k : String) (d : Sample) (h : Histogram)
      → samples l (observe k d h) ≡ (if str_eq l k then d ∷ samples l h else samples l h)

pub record Observer (v : Vectors) : Type 0 where
  pub up : v.Gauge
  pub starts : v.Counter
  pub restarts : v.Counter
  pub stop_errors : v.Counter
  pub health_dur : v.Histogram
  pub health_failure : v.Counter

-- A callback of the supervisor, with the arguments that the methods use.
pub data Event : Type 0 where
  started : (component : String) → Event
  stopped : (component : String) (err : Option Error) → Event
  restarting : (component : String) → Event
  health_checked : (component : String) (duration : ℤ) (err : Option Error) → Event

module _ (v : Vectors) where
  unfoldable pub new_observer : Observer v
  new_observer = record {
    up = v.gauge;
    starts = v.counter;
    restarts = v.counter;
    stop_errors = v.counter;
    health_dur = v.histogram;
    health_failure = v.counter;
  }

  -- `if err != nil { … Inc() }`
  abbrev pub inc_on : String → Option Error → v.Counter → v.Counter
  inc_on component none c = c
  inc_on component (some err) c = v.inc component c

  unfoldable pub component_started : String → Observer v → Observer v
  component_started component o = record o {
    up = v.set component 1 o.up;
    starts = v.inc component o.starts;
  }

  unfoldable pub component_stopped : String → Option Error → Observer v → Observer v
  component_stopped component err o = record o {
    up = v.set component 0 o.up;
    stop_errors = inc_on component err o.stop_errors;
  }

  unfoldable pub component_restarting : String → Observer v → Observer v
  component_restarting component o = record o {
    up = v.set component 0 o.up;
    restarts = v.inc component o.restarts;
  }

  unfoldable pub health_check_completed : String → ℤ → Option Error → Observer v → Observer v
  health_check_completed component duration err o = record o {
    health_dur = v.observe component (v.seconds duration) o.health_dur;
    health_failure = inc_on component err o.health_failure;
  }

  unfoldable pub handle : Event → Observer v → Observer v
  unfolding component_started component_stopped component_restarting health_check_completed
  handle (started c) o = component_started c o
  handle (stopped c err) o = component_stopped c err o
  handle (restarting c) o = component_restarting c o
  handle (health_checked c d err) o = health_check_completed c d err o

  -- The events in the order in which they come.
  unfoldable pub replay : List Event → Observer v → Observer v
  unfolding handle
  replay [] o = o
  replay (e ∷ es) o = replay es (handle e o)
