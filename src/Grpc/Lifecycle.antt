-- ===== src/Grpc/Lifecycle.antt =====
-- Start, its context watcher, and Stop of grpc/grpc.go as threads that share the component, its stop
-- channels and its servers. A step of a thread is atomic: a critical section, one operation on a channel,
-- or one call of the server.
pub mod Once
pub mod Race
pub mod Missed
use samsara_components.Prelude.{
  ℕ, suc, Bool, true, false, not, ◌||◌, ◌&&◌, List, [], ◌∷◌, Option, none, some, ◌==◌,
  if◌then◌else◌,
}
use samsara_components.Go.Threads.{set_at}

-- Where a thread is. Each thread is one call of Start or Stop, or the watcher that a Start spawns.
pub data Pc : Type 0 where
  idle : Pc
  preparing stored serving waiting : (stop_ch : ℕ) → Pc
  watching cancelling : (stop_ch : ℕ) → Pc
  testing signalling : (ch : ℕ) → (server : Option ℕ) → Pc
  stopping draining : (server : ℕ) → Pc
  returned : Pc

-- Channels and servers are numbers; `next` and `next_server` are the first that have not been made.
-- `graceful` and `forced` count the calls of GracefulStop and of Stop on a server.
pub record World : Type 0 where
  pub server : Option ℕ
  pub is_serving : Bool
  pub stop_ch : ℕ
  pub closed : ℕ → Bool
  pub next : ℕ
  pub next_server : ℕ
  pub graceful : ℕ → ℕ
  pub forced : ℕ → ℕ
  pub pc : ℕ → Pc
  pub panicked : Bool

-- What a thread does next, where its place leaves a choice: the call that it makes; whether its
-- preparations fail; the thread that it spawns; what Serve returns; which case its select takes, that of
-- the context or a deadline being `wait true`.
pub data Action : Type 0 where
  call_start call_stop : Action
  prepare_fails : Action
  spawn : (watcher : ℕ) → Action
  serve_returns : (failed : Bool) → Action
  wait : (is_done : Bool) → Action

abbrev pub is_idle : Pc → Bool
is_idle idle = true
is_idle _ = false

unfoldable pub new : World
new = record {
  server = none;
  is_serving = false;
  stop_ch = 0;
  closed = λ c. false;
  next = 1;
  next_server = 0;
  graceful = λ h. 0;
  forced = λ h. 0;
  pc = λ i. idle;
  panicked = false;
}

unfoldable pub start_enter : World → ℕ → World
start_enter w i = record w {
  stop_ch = w.next;
  next = suc w.next;
  pc = set_at i (preparing w.next) w.pc;
}

-- The new server is stored.
unfoldable pub start_store : World → ℕ → (stop_ch : ℕ) → World
start_store w i s = record w {
  server = some w.next_server;
  is_serving = true;
  next_server = suc w.next_server;
  pc = set_at i (stored s) w.pc;
}

-- `go func() { select … }()`, in a thread that has not been used.
unfoldable pub start_spawn : World → ℕ → (stop_ch watcher : ℕ) → World
start_spawn w i s k =
    if is_idle (w.pc k)
    then record w { pc = set_at i (serving s) (set_at k (watching s) w.pc) }
    else w

-- The critical section of Stop, and the watcher's.
unfoldable pub stop_enter : World → ℕ → (ch : ℕ) → World
stop_enter w i ch = record w {
  server = none;
  is_serving = false;
  stop_ch = w.next;
  closed = set_at w.next true w.closed;
  next = suc w.next;
  pc = set_at i (testing ch w.server) w.pc;
}

abbrev pub after_signal : Option ℕ → Pc
after_signal none = returned
after_signal (some h) = stopping h

unfoldable pub stop_test : World → ℕ → (ch : ℕ) → Option ℕ → World
stop_test w i ch server = record w {
  pc = set_at i (if w.closed ch then after_signal server else signalling ch server) w.pc;
}

-- `close(ch)`
unfoldable pub stop_close : World → ℕ → (ch : ℕ) → Option ℕ → World
stop_close w i ch server = record w {
  closed = set_at ch true w.closed;
  panicked = w.panicked || w.closed ch;
  pc = set_at i (after_signal server) w.pc;
}

-- `srv.GracefulStop()`, in a goroutine that the thread waits for.
unfoldable pub stop_drain : World → ℕ → (server : ℕ) → World
stop_drain w i h = record w {
  graceful = set_at h (suc (w.graceful h)) w.graceful;
  pc = set_at i (draining h) w.pc;
}

-- It has returned; or the deadline comes first, and `srv.Stop()` makes it return.
unfoldable pub stop_force : World → ℕ → (server : ℕ) → (deadline : Bool) → World
stop_force w i h false = record w { pc = set_at i returned w.pc }
stop_force w i h true = record w {
  forced = set_at h (suc (w.forced h)) w.forced;
  pc = set_at i returned w.pc;
}

-- Serve ends: an error while the component still serves makes Start return it.
unfoldable pub serve_end : World → ℕ → (stop_ch : ℕ) → (failed : Bool) → World
serve_end w i s failed = record w {
  pc = set_at i (if failed && w.is_serving then returned else waiting s) w.pc;
}

unfoldable pub dispatch : Pc → Action → World → ℕ → World
unfolding start_enter start_store start_spawn stop_enter stop_test stop_close stop_drain stop_force
    serve_end
dispatch idle call_start w i = start_enter w i
dispatch idle call_stop w i = stop_enter w i w.stop_ch
dispatch (preparing s) prepare_fails w i = record w { pc = set_at i returned w.pc }
dispatch (preparing s) (wait _) w i = start_store w i s
dispatch (stored s) (spawn k) w i = start_spawn w i s k
dispatch (serving s) (serve_returns failed) w i = serve_end w i s failed
dispatch (waiting s) (wait ctx_done) w i =
    if ctx_done || w.closed s then record w { pc = set_at i returned w.pc } else w
dispatch (watching s) (wait true) w i = record w { pc = set_at i (cancelling s) w.pc }
dispatch (watching s) (wait false) w i =
    if w.closed s then record w { pc = set_at i returned w.pc } else w
dispatch (cancelling s) (wait _) w i = stop_enter w i s
dispatch (testing ch server) (wait _) w i = stop_test w i ch server
dispatch (signalling ch server) (wait _) w i = stop_close w i ch server
dispatch (stopping h) (wait _) w i = stop_drain w i h
dispatch (draining h) (wait deadline) w i = stop_force w i h deadline
dispatch _ _ w i = w

unfoldable pub move : World → ℕ × Action → World
unfolding dispatch
move w (i, a) = dispatch (w.pc i) a w i

-- A schedule: any interleaving of any number of calls, and of the watchers that they spawn.
unfoldable pub run : World → List (ℕ × Action) → World
unfolding move
run w [] = w
run w (m ∷ ms) = run (move w m) ms
