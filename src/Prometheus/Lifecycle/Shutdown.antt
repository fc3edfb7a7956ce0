-- ===== src/Prometheus/Lifecycle/Shutdown.antt =====
-- Stop of prometheus/prometheus.go shuts each server down once, after the signal to its Start.
use samsara_components.Prelude.{ℕ, ◌≤◌, true, false, ◌≡◌, refl, List, some, arith}
use samsara_components.Prometheus.Lifecycle.{
  serving, stopping, returned, World, Action, step, new, move, run,
}
use samsara_components.Prometheus.Lifecycle.Signals.{run-calm}
use samsara_components.Prometheus.Lifecycle.Servers.{new-Servers, run-Servers}

-- Whatever calls of Start and Stop overlap, Shutdown is called at most once on every server, and not
-- on the one that Health goes by.
pub run-shuts_once :
    (ms : List (ℕ × Action)) (s : ℕ)
    → ((run new ms).shutdowns s ≤ 1) × ((run new ms).server ≡ some s → (run new ms).shutdowns s ≡ 0)
run-shuts_once ms s =
    let inv = run-Servers new ms new-Servers in (inv.at_most_once s, inv.lent_unshut s)

signal_wait :
    (w : World) (j s ch : ℕ)
    → w.pc j ≡ serving s ch
    → w.closed ch ≡ true
    → (move w (j, step false)).pc j ≡ returned
unfolding move
signal_wait w j s ch p h = ground (arith, p, h)

-- Whatever calls of Start and Stop overlap, and however their steps interleave: whenever a Stop is about
-- to shut a server down, the Start that made this server, if it still waits, returns at its next step,
-- without a context that is done or a word from the serving goroutine; and Shutdown has not been called
-- on the server. And no stop channel has been closed twice.
pub run-ends_start :
    (ms : List (ℕ × Action)) (i j s ch : ℕ)
    → (run new ms).pc i ≡ stopping s
    → (run new ms).pc j ≡ serving s ch
    → ((move (run new ms) (j, step false)).pc j ≡ returned)
      × ((run new ms).shutdowns s ≡ 0)
      × ((run new ms).panicked ≡ false)
run-ends_start ms i j s ch stop serve =
    let inv = run-Servers new ms new-Servers in
    (
      signal_wait (run new ms) j s ch serve
          (inv.signalled i j s ch (rw stop refl) (rw serve refl) (rw serve refl)),
      inv.taken_unshut i s (rw stop refl),
      run-calm ms,
    )
