-- ===== src/Grpc/Lifecycle/Missed.antt =====
-- A Stop that comes while a Start still prepares its server passes that server by.
use samsara_components.Prelude.{ℕ, ◌<◌, true, false, ◌≡◌, List, [], ◌∷◌, none, some, arith, ◌==◌}
use samsara_components.Grpc.Lifecycle.{
  idle, preparing, serving, returned, World, Action, call_stop, spawn, wait, run,
}

-- Thread j stops; then thread i, the Start, goes on, and spawns the watcher k, which looks at its select.
abbrev pub overtaken : (i j k : ℕ) → List (ℕ × Action)
overtaken i j k =
    (j, call_stop)
    ∷ (j, wait false)
    ∷ (j, wait false)
    ∷ (i, wait false)
    ∷ (i, spawn k)
    ∷ (k, wait false)
    ∷ []

-- If a Stop comes while the first Start still prepares its server, the Stop returns, and the Start then serves
-- all the same: its server is the component's, has not been drained, and counts as serving. Its
-- watcher has returned, so that no context that is done will end it.
pub missed_stop :
    (w : World) (i j k : ℕ)
    → w.pc i ≡ preparing w.stop_ch
    → w.pc j ≡ idle
    → w.pc k ≡ idle
    → i == j ≡ false
    → i == k ≡ false
    → j == k ≡ false
    → w.server ≡ none
    → w.closed w.stop_ch ≡ false
    → w.stop_ch < w.next
    → let w' = run w (overtaken i j k) in
      (w'.pc j ≡ returned)
      × (w'.pc i ≡ serving w.stop_ch)
      × (w'.pc k ≡ returned)
      × (w'.server ≡ some w.next_server)
      × (w'.graceful w.next_server ≡ w.graceful w.next_server)
      × (w'.is_serving ≡ true)
unfolding run
missed_stop w i j k starts stands free a b c first open_yet below = ground arith
