-- ===== src/Fiber/Lifecycle.antt =====
-- Start, its context watcher, and Stop of fiber/fiber.go as threads that share the component, its stop
-- channels and its apps; and Health. A step of a thread is atomic: a critical section, one operation on
-- a channel, or one call of the app.
pub mod Watcher
use samsara_components.Prelude.{
  ℕ, suc, Bool, true, false, ◌||◌, List, [], ◌∷◌, Option, none, some, ◌⊎◌, inl, inr, ℤ, pos,
  is_zero, if◌then◌else◌,
}
use samsara_components.Go.Errors.{Error, newf, errorf}
use samsara_components.Go.Threads.{set_at}
use samsara_components.Fiber.Config.{Config, addr, path_prefix}

-- Where a thread is. Each thread is one call of Start or Stop, or the watcher that a Start spawns.
pub data Pc : Type 0 where
  idle : Pc
  stored serving : (app stop_ch : ℕ) → Pc
  watching : (app stop_ch : ℕ) → Pc
  stopping : (app : ℕ) → Pc
  returned failed : Pc

-- Channels and apps are numbers; `next` and `next_app` are the first that have not been made. `shutdowns`
-- counts the calls of ShutdownWithContext on an app.
pub record World : Type 0 where
  pub app : Option ℕ
  pub is_listening : Bool
  pub stop_ch : ℕ
  pub closed : ℕ → Bool
  pub next : ℕ
  pub next_app : ℕ
  pub shutdowns : ℕ → ℕ
  pub pc : ℕ → Pc
  pub panicked : Bool

-- What a thread does next, where its place leaves a choice: the call that it makes; the thread that it
-- spawns; whether Listen runs its hook or returns; which case its select takes.
pub data Action : Type 0 where
  call_start call_stop : Action
  spawn : (watcher : ℕ) → Action
  listen_hook : Action
  listen_returns : (has_failed : Bool) → Action
  wait : (ctx_done : Bool) → Action

abbrev pub is_idle : Pc → Bool
is_idle idle = true
is_idle _ = false

unfoldable pub new : World
new = record {
  app = none;
  is_listening = false;
  stop_ch = 0;
  closed = λ c. false;
  next = 1;
  next_app = 0;
  shutdowns = λ h. 0;
  pc = λ i. idle;
  panicked = false;
}

-- The app is built and stored, with a new stop channel.
unfoldable pub start_store : World → ℕ → World
start_store w i = record w {
  app = some w.next_app;
  next_app = suc w.next_app;
  stop_ch = w.next;
  next = suc w.next;
  pc = set_at i (stored w.next_app w.next) w.pc;
}

-- `go func() { select … }()`, in a thread that has not been used.
unfoldable pub start_spawn : World → ℕ → (app stop_ch watcher : ℕ) → World
start_spawn w i a s k =
    if is_idle (w.pc k)
    then record w { pc = set_at i (serving a s) (set_at k (watching a s) w.pc) }
    else w

-- Listen has returned: with an error the app is cleared and Start fails, otherwise the listening flag is
-- cleared too.
unfoldable pub listen_end : World → ℕ → (has_failed : Bool) → World
listen_end w i true = record w { app = none; pc = set_at i failed w.pc }
listen_end w i false = record w { is_listening = false; app = none; pc = set_at i returned w.pc }

abbrev pub after_signal : Option ℕ → Pc
after_signal none = returned
after_signal (some a) = stopping a

-- `close(c.stopCh)`
unfoldable pub close_stop_ch : World → World
close_stop_ch w = record w {
  closed = set_at w.stop_ch true w.closed;
  panicked = w.panicked || w.closed w.stop_ch;
}

-- The critical section of Stop: the app is read, and the stop channel tested and closed.
unfoldable pub stop_enter : World → ℕ → World
unfolding close_stop_ch
stop_enter w i =
    let v = if w.closed w.stop_ch then w else close_stop_ch w in
    record v { pc = set_at i (after_signal w.app) v.pc }

-- `app.ShutdownWithContext(ctx)`
unfoldable pub stop_shutdown : World → ℕ → (app : ℕ) → World
stop_shutdown w i a = record w {
  shutdowns = set_at a (suc (w.shutdowns a)) w.shutdowns;
  pc = set_at i returned w.pc;
}

unfoldable pub dispatch : Pc → Action → World → ℕ → World
unfolding start_store start_spawn listen_end stop_enter stop_shutdown
dispatch idle call_start w i = start_store w i
dispatch idle call_stop w i = stop_enter w i
dispatch (stored a s) (spawn k) w i = start_spawn w i a s k
dispatch (serving a s) listen_hook w i = record w { is_listening = true }
dispatch (serving a s) (listen_returns has_failed) w i = listen_end w i has_failed
dispatch (watching a s) (wait true) w i = stop_shutdown w i a
dispatch (watching a s) (wait false) w i =
    if w.closed s then record w { pc = set_at i returned w.pc } else w
dispatch (stopping a) (wait _) w i = stop_shutdown w i a
dispatch _ _ w i = w

unfoldable pub move : World → ℕ × Action → World
unfolding dispatch
move w (i, a) = dispatch (w.pc i) a w i

-- A schedule: any interleaving of any number of calls, and of the watchers that they spawn.
unfoldable pub run : World → List (ℕ × Action) → World
unfolding move
run w [] = w
run w (m ∷ ms) = run (move w m) ms
