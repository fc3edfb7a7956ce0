-- ===== src/Grpc/Lifecycle/Race.antt =====
-- A Stop and the context watcher can both close the stop channel of a run.
use samsara_components.Prelude.{ℕ, ◌<◌, true, false, ◌≡◌, List, [], ◌∷◌, arith, ◌==◌}
use samsara_components.Grpc.Lifecycle.{idle, watching, World, Action, call_stop, wait, run}

-- The Stop of thread j and the watcher, thread i, both find the channel open before either closes it.
abbrev pub race : (i j : ℕ) → List (ℕ × Action)
race i j =
    (j, call_stop)
    ∷ (j, wait false)
    ∷ (i, wait true)
    ∷ (i, wait true)
    ∷ (i, wait true)
    ∷ (i, wait true)
    ∷ (j, wait false)
    ∷ []

-- From any state in which a watcher waits on the stop channel of the component, still open, and another
-- thread is about to call Stop: if the context is done while that Stop runs, then there is an order
-- of their steps in which both close the channel, and the second close panics.
pub race_panics :
    (w : World) (i j : ℕ)
    → w.pc i ≡ watching w.stop_ch
    → w.pc j ≡ idle
    → i == j ≡ false
    → w.closed w.stop_ch ≡ false
    → w.stop_ch < w.next
    → (run w (race i j)).panicked ≡ true
unfolding run
race_panics w i j watches stands apart open_yet below = ground arith
