-- ===== src/Redis/Lifecycle/Wakeup.antt =====
-- A Stop is not missed by a Start of package redis that waits; but one that connects may miss it.
use samsara_components.Prelude.{ℕ, ◌<◌, true, false, ◌≡◌, ◌⊎◌, List, none, some, ◌==◌}
use samsara_components.Go.Handles.{ready}
use samsara_components.Go.Tls.{Files}
use samsara_components.Runner as Threads
use samsara_components.Runner.{idle, connecting, serving, returned, World, Action, step, new, move}
use samsara_components.Runner.Signals.{role_of, machine}
use samsara_components.Runner.Wakeup.{run-IsWatched_waiting}
use samsara_components.Runner.Missed.{overtaken, stop_during_connect}
use samsara_components.Protocol.Calm.{held}
use samsara_components.Protocol.Wakeup.{StartsApart}
use samsara_components.Redis.Config.{Config, Options}
use samsara_components.Redis.Connect.{Library}
use samsara_components.Redis.Lifecycle.{connect, run}

module _ (l : ℕ → Library) (f : ℕ → Files) (c : Config) (opts : ℕ → List (Options → Options)) where
  -- If the supervisor never calls Start while another Start runs, then a Start that still waits after some
  -- schedule is not forgotten: its stop channel is the component's, so that the next Stop takes it over,
  -- or a Stop holds it and is about to signal it, or it is closed, and the Start returns at its next step.
  pub run-IsWatched :
      (ms : List (ℕ × Action)) (i s : ℕ)
      → StartsApart (machine (connect l f c opts)) new ms
      → (run l f c opts ms).pc i ≡ serving s
      → (s ≡ (run l f c opts ms).stop_ch)
        ⊎ ((j : ℕ) × (held (role_of ((run l f c opts ms).pc j)) ≡ some s))
        ⊎ ((move (connect l f c opts) (run l f c opts ms) (i, step false)).pc i ≡ returned)
  unfolding run
  run-IsWatched ms i s single e = run-IsWatched_waiting (connect l f c opts) ms i s single e

  -- A Stop that comes while a first Start still waits for its ping runs to its end and the Start then
  -- returns; but the component keeps the client of that Start, which is left open.
  pub stop_during_ping :
      (w : World) (i j client : ℕ)
      → w.pc i ≡ connecting w.stop_ch
      → w.pc j ≡ idle
      → i == j ≡ false
      → connect l f c opts i ≡ some (ready client)
      → w.closed w.stop_ch ≡ false
      → w.handle ≡ none
      → w.stop_ch < w.next
      → let w' = Threads.run (connect l f c opts) w (overtaken i j) in
        (w'.pc j ≡ returned)
        × (w'.pc i ≡ returned)
        × (w'.handle ≡ some client)
        × (w'.open_handles client ≡ true)
  stop_during_ping = stop_during_connect (connect l f c opts)
