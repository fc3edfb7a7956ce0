-- ===== src/Prometheus/Lifecycle.antt =====
-- Start, Stop and Health of prometheus/prometheus.go: the calls of Start and Stop as threads that share the
-- component, its stop channels and its servers. A step of a thread is atomic: a critical section, one
-- operation on a channel, or one call of a server.
pub mod Signals
pub mod Servers
pub mod Shutdown
pub mod Failure
use samsara_components.Prelude.{
  ℕ, suc, Bool, true, false, ◌||◌, List, [], ◌∷◌, Option, none, some, if◌then◌else◌,
}
use samsara_components.Go.Errors.{
  Error, sentinel, errorf, errors_is, prometheus_not_ready, ctx_deadline, ctx_canceled,
}
use samsara_components.Go.Threads.{set_at}

-- Where a thread is. Each thread is one call of Start or Stop.
pub data Pc : Type 0 where
  idle : Pc
  serving : (server stop_ch : ℕ) → Pc
  testing signalling : (ch : ℕ) → (server : Option ℕ) → Pc
  stopping : (server : ℕ) → Pc
  returned failed : Pc

-- Channels and servers are numbers; `next` and `next_server` are the first that have not been made.
-- `shutdowns` counts the calls of Shutdown on a server.
pub record World : Type 0 where
  pub server : Option ℕ
  pub stop_ch : ℕ
  pub closed : ℕ → Bool
  pub next : ℕ
  pub next_server : ℕ
  pub shutdowns : ℕ → ℕ
  pub pc : ℕ → Pc
  pub panicked : Bool

-- What a thread does next: the call that it makes, and whether the listener is bound; what it receives from
-- the serving goroutine; or its next step, with what a select that waits for the context finds.
pub data Action : Type 0 where
  call_start : (bound : Bool) → Action
  call_stop : Action
  served : (has_failed : Bool) → Action
  step : (ctx_done : Bool) → Action

unfoldable pub new : World
new = record {
  server = none;
  stop_ch = 0;
  closed = λ c. false;
  next = 1;
  next_server = 0;
  shutdowns = λ s. 0;
  pc = λ i. idle;
  panicked = false;
}

-- The listener, and the critical section of Start.
unfoldable pub start_enter : World → ℕ → (bound : Bool) → World
start_enter w i false = record w { pc = set_at i failed w.pc }
start_enter w i true = record w {
  server = some w.next_server;
  next_server = suc w.next_server;
  stop_ch = w.next;
  next = suc w.next;
  pc = set_at i (serving w.next_server w.next) w.pc;
}

-- `case err := <-errCh: … return nil`
unfoldable pub start_served : World → ℕ → (has_failed : Bool) → World
start_served w i has_failed = record w {
  pc = set_at i (if has_failed then failed else returned) w.pc;
}

-- `case <-stopCh:`, and `case <-ctx.Done():`
unfoldable pub start_wait : World → ℕ → (stop_ch : ℕ) → (ctx_done : Bool) → World
start_wait w i s ctx_done =
    if ctx_done || w.closed s then record w { pc = set_at i returned w.pc } else w

-- The critical section of Stop, which leaves a closed channel.
unfoldable pub stop_enter : World → ℕ → World
stop_enter w i = record w {
  server = none;
  stop_ch = w.next;
  closed = set_at w.next true w.closed;
  next = suc w.next;
  pc = set_at i (testing w.stop_ch w.server) w.pc;
}

abbrev pub after_signal : Option ℕ → Pc
after_signal none = returned
after_signal (some s) = stopping s

-- `select { case <-ch: default: … }`
unfoldable pub stop_test : World → ℕ → (ch : ℕ) → Option ℕ → World
stop_test w i ch server = record w {
  pc = set_at i (if w.closed ch then after_signal server else signalling ch server) w.pc;
}

-- `close(ch)`
unfoldable pub stop_close : World → ℕ → (ch : ℕ) → Option ℕ → World
stop_close w i ch server = record w {
  closed = set_at ch true w.closed;
  panicked = w.panicked || w.closed ch;
  pc = set_at i (after_signal server) w.pc;
}

-- `srv.Shutdown(ctx)`
unfoldable pub stop_shutdown : World → ℕ → (server : ℕ) → World
stop_shutdown w i s = record w {
  shutdowns = set_at s (suc (w.shutdowns s)) w.shutdowns;
  pc = set_at i returned w.pc;
}

unfoldable pub dispatch : Pc → Action → World → ℕ → World
unfolding start_enter start_served start_wait stop_enter stop_test stop_close stop_shutdown
dispatch idle (call_start bound) w i = start_enter w i bound
dispatch idle call_stop w i = stop_enter w i
dispatch (serving s ch) (served has_failed) w i = start_served w i has_failed
dispatch (serving s ch) (step ctx_done) w i = start_wait w i ch ctx_done
dispatch (testing ch server) (step _) w i = stop_test w i ch server
dispatch (signalling ch server) (step _) w i = stop_close w i ch server
dispatch (stopping s) (step _) w i = stop_shutdown w i s
dispatch _ _ w i = w

unfoldable pub move : World → ℕ × Action → World
unfolding dispatch
move w (i, a) = dispatch (w.pc i) a w i

-- A schedule: any interleaving of any number of calls.
unfoldable pub run : World → List (ℕ × Action) → World
unfolding move
run w [] = w
run w (m ∷ ms) = run (move w m) ms

-- What Stop returns, from what Shutdown and Close return.
unfoldable pub stop_result : (shutdown close : Option Error) → Option Error
stop_result none close = none
stop_result (some e) close =
    if errors_is e ctx_deadline || errors_is e ctx_canceled
    then close
    else some (errorf "prometheus: shutdown: %w" [] e)

unfoldable pub health : World → Option Error
health w = elim w.server [ none ↦ some (sentinel prometheus_not_ready) | some s ↦ none ]
