-- ===== src/Runner/Missed.antt =====
-- A Stop that comes while a Start still connects passes the handle of that Start by.
use samsara_components.Prelude.{
  ℕ, ◌<◌, true, false, ◌≡◌, List, [], ◌∷◌, Option, none, some, arith, ◌==◌,
}
use samsara_components.Go.Handles.{Outcome, ready}
use samsara_components.Runner.{idle, connecting, returned, World, Action, call_stop, step, run}

-- Thread j stops; then thread i, the Start, goes on.
abbrev pub overtaken : (i j : ℕ) → List (ℕ × Action)
overtaken i j =
    (j, call_stop) ∷ (j, step false) ∷ (j, step false) ∷ (i, step false) ∷ (i, step false) ∷ []

-- If a Stop comes while the first Start still connects, its stop channel open and the component without a
-- handle, and the connection phase then succeeds, both calls run to their ends; but the component goes
-- on handing out the handle of that Start, which is open.
pub stop_during_connect :
    (connect : ℕ → Option Outcome) (w : World) (i j handle : ℕ)
    → w.pc i ≡ connecting w.stop_ch
    → w.pc j ≡ idle
    → i == j ≡ false
    → connect i ≡ some (ready handle)
    → w.closed w.stop_ch ≡ false
    → w.handle ≡ none
    → w.stop_ch < w.next
    → let w' = run connect w (overtaken i j) in
      (w'.pc j ≡ returned)
      × (w'.pc i ≡ returned)
      × (w'.handle ≡ some handle)
      × (w'.open_handles handle ≡ true)
unfolding run
stop_during_connect connect w i j handle starts stands apart makes open_yet first below =
    ground arith
