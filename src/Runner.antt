-- ===== src/Runner.antt =====
-- The Start and Stop that packages redis, postgresql, sqlite and grpcclient have in common, as threads that
-- share the component and its stop channels, after postgresql/postgresql.go. A step of a thread is
-- atomic: a critical section, one operation on a channel, the connection phase of a Start with the
-- storing of its handle, or the closing of a handle.
pub mod Signals
pub mod Lending
pub mod Wakeup
pub mod Missed
pub mod Progress
use samsara_components.Prelude.{
  ℕ, suc, Bool, true, false, ◌||◌, List, [], ◌∷◌, Option, none, some, if◌then◌else◌,
}
use samsara_components.Go.Handles.{Outcome, failed, cancelled, ready}
use samsara_components.Go.Threads.{set_at}

-- Where a thread is. Each thread is one call of Start or Stop.
pub data Pc : Type 0 where
  idle : Pc
  connecting serving : (stop_ch : ℕ) → Pc
  testing signalling : (ch : ℕ) → (handle : Option ℕ) → Pc
  closing : (handle : ℕ) → Pc
  returned : Pc

-- Channels and handles are numbers, `next` the first channel that has not been made. `panicked` says that
-- some thread has closed a closed channel.
pub record World : Type 0 where
  pub handle : Option ℕ
  pub stop_ch : ℕ
  pub closed : ℕ → Bool
  pub next : ℕ
  pub open_handles : ℕ → Bool
  pub pc : ℕ → Pc
  pub panicked : Bool

-- What a thread does next: the call that it makes, or its next step, with what a select that waits for the
-- context finds.
pub data Action : Type 0 where
  call_start call_stop : Action
  step : (ctx_done : Bool) → Action

unfoldable pub new : World
new = record {
  handle = none;
  stop_ch = 0;
  closed = λ c. false;
  next = 1;
  open_handles = λ h. false;
  pc = λ i. idle;
  panicked = false;
}

-- The first critical section of Start.
unfoldable pub start_enter : World → ℕ → World
start_enter w i = record w {
  stop_ch = w.next;
  next = suc w.next;
  pc = set_at i (connecting w.next) w.pc;
}

-- What the connection phase comes to. A Start that fails has closed what it made; one that is ready stores
-- its handle.
unfoldable pub start_connect : World → ℕ → (stop_ch : ℕ) → Option Outcome → World
start_connect w i s none = w
start_connect w i s (some (failed e)) = record w { pc = set_at i returned w.pc }
start_connect w i s (some cancelled) = record w { pc = set_at i returned w.pc }
start_connect w i s (some (ready h)) = record w {
  handle = some h;
  open_handles = set_at h true w.open_handles;
  pc = set_at i (serving s) w.pc;
}

-- `select { case <-stopCh: case <-ctx.Done(): }`
unfoldable pub start_wait : World → ℕ → (stop_ch : ℕ) → (ctx_done : Bool) → World
start_wait w i s ctx_done =
    if ctx_done || w.closed s then record w { pc = set_at i returned w.pc } else w

-- The critical section of Stop, which leaves a closed channel.
unfoldable pub stop_enter : World → ℕ → World
stop_enter w i = record w {
  handle = none;
  stop_ch = w.next;
  closed = set_at w.next true w.closed;
  next = suc w.next;
  pc = set_at i (testing w.stop_ch w.handle) w.pc;
}

abbrev pub after_signal : Option ℕ → Pc
after_signal none = returned
after_signal (some h) = closing h

-- `select { case <-ch: default: … }`
unfoldable pub stop_test : World → ℕ → (ch : ℕ) → Option ℕ → World
stop_test w i ch handle = record w {
  pc = set_at i (if w.closed ch then after_signal handle else signalling ch handle) w.pc;
}

-- `close(ch)`
unfoldable pub stop_close : World → ℕ → (ch : ℕ) → Option ℕ → World
stop_close w i ch handle = record w {
  closed = set_at ch true w.closed;
  panicked = w.panicked || w.closed ch;
  pc = set_at i (after_signal handle) w.pc;
}

-- The end of Stop, which waits for the handle's Close or gives up on it.
unfoldable pub stop_finish : World → ℕ → (handle : ℕ) → World
stop_finish w i h = record w {
  open_handles = set_at h false w.open_handles;
  pc = set_at i returned w.pc;
}

-- `connect` says what the connection phase of the Start of each thread comes to, `none` that it does
-- not end.
module _ (connect : ℕ → Option Outcome) where
  unfoldable pub dispatch : Pc → Action → World → ℕ → World
  unfolding start_enter start_connect start_wait stop_enter stop_test stop_close stop_finish
  dispatch idle call_start w i = start_enter w i
  dispatch idle call_stop w i = stop_enter w i
  dispatch (connecting s) (step _) w i = start_connect w i s (connect i)
  dispatch (serving s) (step ctx_done) w i = start_wait w i s ctx_done
  dispatch (testing ch h) (step _) w i = stop_test w i ch h
  dispatch (signalling ch h) (step _) w i = stop_close w i ch h
  dispatch (closing h) (step _) w i = stop_finish w i h
  dispatch _ _ w i = w

  unfoldable pub move : World → ℕ × Action → World
  unfolding dispatch
  move w (i, a) = dispatch (w.pc i) a w i

  -- A schedule: any interleaving of any number of calls.
  unfoldable pub run : World → List (ℕ × Action) → World
  unfolding move
  run w [] = w
  run w (m ∷ ms) = run (move w m) ms
