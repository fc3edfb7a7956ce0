-- ===== src/S3/Lifecycle.antt =====
-- Start and Stop of s3/s3.go as threads that share the component and its stop channels. A step of a thread is
-- atomic: a critical section, one operation on a channel, or the connection phase of a Start with the
-- storing of its handles. They take the actions of Runner; but Stop has no handle to close.
pub mod Signals
pub mod Together
use samsara_components.Prelude.{
  ℕ, suc, Bool, true, false, ◌||◌, List, [], ◌∷◌, none, ◌⊎◌, inl, inr, if◌then◌else◌,
}
use samsara_components.Go.Errors.{Error}
use samsara_components.Go.Threads.{set_at}
use samsara_components.Runner.{Action, call_start, call_stop, step}
use samsara_components.S3.Connect.{Live, stopped}

-- Where a thread is. Each thread is one call of Start or Stop.
pub data Pc : Type 0 where
  idle : Pc
  connecting serving testing signalling : (ch : ℕ) → Pc
  returned : Pc

-- Channels are numbers, `next` the first that has not been made. `panicked` says that some thread has closed a
-- closed channel.
pub record World : Type 0 where
  pub live : Live
  pub stop_ch : ℕ
  pub closed : ℕ → Bool
  pub next : ℕ
  pub pc : ℕ → Pc
  pub panicked : Bool

unfoldable pub new : World
new = record {
  live = record { client = none; presigner = none; engine = none };
  stop_ch = 0;
  closed = λ c. false;
  next = 1;
  pc = λ i. idle;
  panicked = false;
}

-- The first critical section of Start.
unfoldable pub start_enter : World → ℕ → World
start_enter w i = record w {
  stop_ch = w.next;
  next = suc w.next;
  pc = set_at i (connecting w.next) w.pc;
}

-- What the connection phase comes to: an error, or the handles to store.
unfoldable pub start_store : World → ℕ → (stop_ch : ℕ) → Error ⊎ Live → World
start_store w i s (inl e) = record w { pc = set_at i returned w.pc }
start_store w i s (inr live) = record w { live = live; pc = set_at i (serving s) w.pc }

-- `select { case <-stopCh: case <-ctx.Done(): }`
unfoldable pub start_wait : World → ℕ → (stop_ch : ℕ) → (ctx_done : Bool) → World
start_wait w i s ctx_done =
    if ctx_done || w.closed s then record w { pc = set_at i returned w.pc } else w

-- The critical section of Stop, which leaves a closed channel and no handles.
unfoldable pub stop_enter : World → ℕ → World
unfolding stopped
stop_enter w i = record w {
  live = stopped w.live;
  stop_ch = w.next;
  closed = set_at w.next true w.closed;
  next = suc w.next;
  pc = set_at i (testing w.stop_ch) w.pc;
}

-- `select { case <-ch: default: … }`
unfoldable pub stop_test : World → ℕ → (ch : ℕ) → World
stop_test w i ch = record w { pc = set_at i (if w.closed ch then returned else signalling ch) w.pc }

-- `close(ch)`
unfoldable pub stop_close : World → ℕ → (ch : ℕ) → World
stop_close w i ch = record w {
  closed = set_at ch true w.closed;
  panicked = w.panicked || w.closed ch;
  pc = set_at i returned w.pc;
}

-- `connect` says what the connection phase of the Start of each thread comes to.
module _ (connect : ℕ → Error ⊎ Live) where
  unfoldable pub dispatch : Pc → Action → World → ℕ → World
  unfolding start_enter start_store start_wait stop_enter stop_test stop_close
  dispatch idle call_start w i = start_enter w i
  dispatch idle call_stop w i = stop_enter w i
  dispatch (connecting s) (step _) w i = start_store w i s (connect i)
  dispatch (serving s) (step ctx_done) w i = start_wait w i s ctx_done
  dispatch (testing ch) (step _) w i = stop_test w i ch
  dispatch (signalling ch) (step _) w i = stop_close w i ch
  dispatch _ _ w i = w

  unfoldable pub move : World → ℕ × Action → World
  unfolding dispatch
  move w (i, a) = dispatch (w.pc i) a w i

  -- A schedule: any interleaving of any number of calls.
  unfoldable pub run : World → List (ℕ × Action) → World
  unfolding move
  run w [] = w
  run w (m ∷ ms) = run (move w m) ms
