-- ===== src/Fiber/Lifecycle/Watcher.antt =====
-- A Stop that shuts an app down has released the watcher of its run.
use samsara_components.Prelude.{
  ℕ, suc, true, false, ◌≡◌, refl, List, [], ◌∷◌, Option, none, some, arith,
}
use samsara_components.Fiber.Lifecycle.{
  Pc, returned, stored, serving, watching, stopping, failed, listen_returns, World, Action, wait,
  new, move, run,
}

-- The app of the run that a thread belongs to, and its stop channel.
abbrev pub app_of : Pc → Option ℕ
app_of (stored a s) = some a
app_of (serving a s) = some a
app_of (watching a s) = some a
app_of _ = none

abbrev pub channel_of : Pc → Option ℕ
channel_of (stored a s) = some s
channel_of (serving a s) = some s
channel_of (watching a s) = some s
channel_of _ = none

abbrev pub stops : Pc → Option ℕ
stops (stopping a) = some a
stops _ = none

-- Apps and stop channels are made in pairs.
pub record Inv (w : World) : Type 0 where
  pub in_step : w.next ≡ suc w.next_app
  pub current : (a : ℕ) → w.app ≡ some a → w.stop_ch ≡ suc a
  pub paired : (i a : ℕ) → app_of (w.pc i) ≡ some a → channel_of (w.pc i) ≡ some (suc a)
  pub signalled : (i a : ℕ) → stops (w.pc i) ≡ some a → w.closed (suc a) ≡ true
  pub calm : w.panicked ≡ false

module _ (w : World) (inv : Inv w) (i : ℕ) (m : Action) where
  next_in_step : (move w (i, m)).next ≡ suc (move w (i, m)).next_app
  unfolding move
  next_in_step = ground (arith, inv.in_step)

  next_current : (a : ℕ) → (move w (i, m)).app ≡ some a → (move w (i, m)).stop_ch ≡ suc a
  unfolding move
  next_current a h = ground (arith, inv.in_step, inv.current a)

  next_paired :
      (j a : ℕ)
      → app_of ((move w (i, m)).pc j) ≡ some a
      → channel_of ((move w (i, m)).pc j) ≡ some (suc a)
  unfolding move
  next_paired j a h = ground (arith, inv.in_step, inv.paired j a, inv.paired i a)

  next_signalled :
      (j a : ℕ) → stops ((move w (i, m)).pc j) ≡ some a → (move w (i, m)).closed (suc a) ≡ true
  unfolding move
  next_signalled j a h = ground (arith, inv.current a, inv.signalled j a, inv.signalled i a)

  next_calm : (move w (i, m)).panicked ≡ false
  unfolding move
  next_calm = ground (arith, inv.calm)

  move-Inv : Inv (move w (i, m))
  move-Inv = record {
    in_step = next_in_step;
    current = next_current;
    paired = next_paired;
    signalled = next_signalled;
    calm = next_calm;
  }

new-Inv : Inv new
unfolding new
new-Inv = record {
  in_step = refl;
  current = λ a h. cc;
  paired = λ i a h. cc;
  signalled = λ i a h. cc;
  calm = refl;
}

run-Inv : (w : World) (ms : List (ℕ × Action)) → Inv w → Inv (run w ms)
unfolding run
run-Inv w [] inv = inv
run-Inv w ((i, m) ∷ ms) inv = run-Inv (move w (i, m)) ms (move-Inv w inv i m)

close_wait :
    (w : World) (k a s : ℕ)
    → w.pc k ≡ watching a s
    → w.closed s ≡ true
    → (move w (k, wait false)).pc k ≡ returned
unfolding move
close_wait w k a s p h = ground (arith, p, h)

module _ (w : World) (inv : Inv w) (i k a s : ℕ) (stop : w.pc i ≡ stopping a)
    (watch : w.pc k ≡ watching a s) where
  same_run : s ≡ suc a
  same_run = ground (arith, inv.paired k a, watch)

  released : w.closed s ≡ true
  released = rw (same_run, inv.signalled i a (ground (arith, stop))) refl

-- Whatever calls of Start and Stop overlap, and however their steps interleave: whenever a Stop is about
-- to shut an app down, the stop channel of the run of that app is closed, so that a watcher of this run that
-- still waits returns at its next step, without a context that is done; and no stop channel has been
-- closed twice.
pub run-frees_watcher :
    (ms : List (ℕ × Action)) (i k a s : ℕ)
    → (run new ms).pc i ≡ stopping a
    → (run new ms).pc k ≡ watching a s
    → ((run new ms).closed s ≡ true)
      × ((move (run new ms) (k, wait false)).pc k ≡ returned)
      × ((run new ms).panicked ≡ false)
run-frees_watcher ms i k a s stop watch =
    let inv = run-Inv new ms new-Inv in
    let open_yet = released (run new ms) inv i k a s stop watch in
    (open_yet, close_wait (run new ms) k a s watch open_yet, inv.calm)

-- When Listen fails, Start fails with it and the app is cleared; but the watcher of the run, if its stop
-- channel is open, goes on waiting for the context, and the flag that Health goes by stays as it was.
pub failed_listen :
    (w : World) (i k a s : ℕ)
    → w.pc i ≡ serving a s
    → w.pc k ≡ watching a s
    → w.closed s ≡ false
    → let w' = move (move w (i, listen_returns true)) (k, wait false) in
      (w'.pc i ≡ failed)
      × (w'.app ≡ none)
      × (w'.pc k ≡ watching a s)
      × (w'.is_listening ≡ w.is_listening)
unfolding move
failed_listen w i k a s p q o = (ground arith, ground arith, ground arith, ground arith)
