-- ===== src/Tests/Telemetry.antt =====
-- Histories of package prometheus, and transactions of package postgresql.
use samsara_components.Prelude.{
  ℕ, suc, String, ◌≡◌, refl, List, [], ◌∷◌, Option, none, some, ℤ, pos, negsuc, ◌*◌, str_eq,
  if◌then◌else◌,
}
use samsara_components.Go.Errors.{foreign}
use samsara_components.Prometheus.Observer.{
  Vectors, Event, started, stopped, restarting, health_checked, new_observer, replay,
}
use samsara_components.Prometheus.Observer.History.{Shows, replay-Shows}
use samsara_components.Postgresql.Database.{Tx, commit_tx, committed}
use samsara_components.Postgresql.Finalise.{finalise_lem}

-- A sample is kept in nanoseconds.
abbrev nanoseconds : ℤ → ℤ
nanoseconds (pos n) = pos (n * 1_000_000_000)
nanoseconds (negsuc n) = negsuc n

-- Vectors as functions of the label.
abbrev by_label : Vectors
by_label = record {
  Gauge = String → Option ℕ;
  Counter = String → ℕ;
  Histogram = String → List ℤ;
  Sample = ℤ;
  of_duration = nanoseconds;
  seconds = λ d. d;
  gauge = λ l. none;
  counter = λ l. 0;
  histogram = λ l. [];
  set = λ k n g l. if str_eq l k then some n else g l;
  inc = λ k c l. if str_eq l k then suc (c l) else c l;
  observe = λ k d h l. if str_eq l k then d ∷ h l else h l;
  level = λ l g. g l;
  total = λ l c. c l;
  samples = λ l h. h l;
  level-gauge = λ l. refl;
  total-counter = λ l. refl;
  samples-histogram = λ l. refl;
  level-set = λ l k n g. refl;
  total-inc = λ l k c. refl;
  seconds-whole = λ n bound. refl;
  samples-observe = λ l k d h. refl;
}

abbrev outage : List Event
outage =
    started "db"
    ∷ started "cache"
    ∷ health_checked "db" (pos 5) (some (foreign 1))
    ∷ restarting "db"
    ∷ started "db"
    ∷ stopped "cache" (some (foreign 2))
    ∷ []

shown : (replay by_label outage (new_observer by_label)).starts "db" ≡ 2
unfolding replay new_observer
shown = refl

replay-Shows_example : Shows by_label outage "db" (replay by_label outage (new_observer by_label))
replay-Shows_example = replay-Shows by_label outage "db"

abbrev failing : Tx
failing = record { commit = some (foreign 3); rollback = none }

finalise_lem_example : (commit_tx none (pos 4) failing none).1 ≡ committed ∷ []
finalise_lem_example = (finalise_lem none (pos 4) failing).0
