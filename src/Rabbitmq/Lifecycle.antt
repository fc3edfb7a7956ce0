-- ===== src/Rabbitmq/Lifecycle.antt =====
-- Start and Stop of rabbitmq/rabbitmq.go, and Subscribe of rabbitmq/messaging.go, as threads that share the component, its stop channels, its run
-- contexts and its connections. A step of a thread is atomic: a critical section with what its thread
-- alone has done before it, one operation on a channel or a context, or the closing of a connection.
pub mod Signals
pub mod Progress
pub mod Revoke
use samsara_components.Prelude.{
  ℕ, suc, Bool, true, false, ◌||◌, List, [], ◌∷◌, Option, none, some, if◌then◌else◌,
}
use samsara_components.Go.Threads.{set_at}

-- Where a thread is. Each thread is one call of Start, Stop or Subscribe. A Start knows its stop channel, its run context
-- and, once it has dialled, its connection; a Stop knows the stop channel, the connection and the
-- run context that it found, and a Subscribe the last two. A connection stands for itself and its one channel.
pub data Pc : Type 0 where
  idle : Pc
  dialling : (stop_ch ctx : ℕ) → Pc
  preparing serving : (stop_ch ctx conn : ℕ) → Pc
  leaving aborting undeclared : (ctx conn : ℕ) → Pc
  finishing : Pc
  clearing discarding : (conn : ℕ) → Pc
  revoking : (ch : ℕ) → (conn ctx : Option ℕ) → Pc
  testing signalling : (ch : ℕ) → (conn : Option ℕ) → Pc
  closing : (conn : ℕ) → Pc
  subscribing : (conn ctx : ℕ) → Pc
  returned : Pc

-- Channels, contexts and connections are numbers; each `next` is the first that has not been made.
-- `open_under` gives for each open connection the run context of the Start that dialled it, under which
-- it starts its consumers; `cancelled` says on which contexts a cancel function has been called;
-- `consumers` are the connections on which a Start or a Subscribe has started consumers, with
-- their contexts, latest first.
pub record World : Type 0 where
  pub conn : Option ℕ
  pub stop_ch : ℕ
  pub run_ctx : Option ℕ
  pub closed : ℕ → Bool
  pub cancelled : ℕ → Bool
  pub open_under : ℕ → Option ℕ
  pub next : ℕ
  pub next_ctx : ℕ
  pub next_conn : ℕ
  pub pc : ℕ → Pc
  pub panicked : Bool
  pub consumers : List (ℕ × ℕ)

-- What a thread does next, where its place leaves a choice: the call that it makes; whether Start gets a
-- connection with a channel on it; how the exchanges and the subscriptions fare; or its next step,
-- with what a select that waits for the context finds.
pub data Action : Type 0 where
  call_start call_stop call_subscribe : Action
  dialled : (success : Bool) → Action
  declare_fails bind_fails bound : Action
  step : (ctx_done : Bool) → Action

unfoldable pub new : World
new = record {
  conn = none;
  stop_ch = 0;
  run_ctx = none;
  closed = λ c. false;
  cancelled = λ r. false;
  open_under = λ k. none;
  next = 1;
  next_ctx = 0;
  next_conn = 0;
  pc = λ i. idle;
  panicked = false;
  consumers = [];
}

-- The first critical section of Start.
unfoldable pub start_enter : World → ℕ → World
start_enter w i = record w {
  stop_ch = w.next;
  next = suc w.next;
  run_ctx = some w.next_ctx;
  next_ctx = suc w.next_ctx;
  pc = set_at i (dialling w.next w.next_ctx) w.pc;
}

-- The end of the dial and of the opening of a channel, and the second critical section.
unfoldable pub start_store : World → ℕ → (stop_ch ctx : ℕ) → (success : Bool) → World
start_store w i s r false = record w { pc = set_at i returned w.pc }
start_store w i s r true = record w {
  conn = some w.next_conn;
  open_under = set_at w.next_conn (some r) w.open_under;
  next_conn = suc w.next_conn;
  pc = set_at i (preparing s r w.next_conn) w.pc;
}

-- `select { case <-stopCh: case <-ctx.Done(): }`
unfoldable pub start_wait : World → ℕ → (stop_ch ctx conn : ℕ) → (ctx_done : Bool) → World
start_wait w i s r k ctx_done =
    if ctx_done || w.closed s then record w { pc = set_at i (leaving r k) w.pc } else w

-- `runCancel()`
abbrev pub run_cancel : World → ℕ → (ctx : ℕ) → Pc → World
run_cancel w i r next = record w { cancelled = set_at r true w.cancelled; pc = set_at i next w.pc }

-- The subscriptions are bound, and Start calls ready.
abbrev pub start_bound : World → ℕ → (stop_ch ctx conn : ℕ) → World
start_bound w i s r k = record w {
  consumers = (k, r) ∷ w.consumers;
  pc = set_at i (serving s r k) w.pc;
}

-- The last critical section of Start, and that of a Start whose subscriptions fail.
unfoldable pub start_finish : World → ℕ → World
start_finish w i = record w { run_ctx = none; pc = set_at i returned w.pc }

unfoldable pub start_clear : World → ℕ → (conn : ℕ) → World
start_clear w i k = record w { conn = none; run_ctx = none; pc = set_at i (discarding k) w.pc }

-- The channel is closed, and then the connection.
abbrev pub close_conn : World → ℕ → (conn : ℕ) → World
close_conn w i k = record w { open_under = set_at k none w.open_under; pc = set_at i returned w.pc }

-- The critical section of Stop, which leaves a closed channel.
unfoldable pub stop_enter : World → ℕ → World
stop_enter w i = record w {
  conn = none;
  stop_ch = w.next;
  closed = set_at w.next true w.closed;
  next = suc w.next;
  pc = set_at i (revoking w.stop_ch w.conn w.run_ctx) w.pc;
}

-- `if runCancel != nil { runCancel() }`
unfoldable pub stop_revoke : World → ℕ → (ch : ℕ) → (conn ctx : Option ℕ) → World
stop_revoke w i ch conn none = record w { pc = set_at i (testing ch conn) w.pc }
stop_revoke w i ch conn (some r) = run_cancel w i r (testing ch conn)

abbrev pub after_signal : Option ℕ → Pc
after_signal none = returned
after_signal (some k) = closing k

-- `select { case <-ch: default: … }`
unfoldable pub stop_test : World → ℕ → (ch : ℕ) → Option ℕ → World
stop_test w i ch conn = record w {
  pc = set_at i (if w.closed ch then after_signal conn else signalling ch conn) w.pc;
}

-- `close(ch)`
unfoldable pub stop_close : World → ℕ → (ch : ℕ) → Option ℕ → World
stop_close w i ch conn = record w {
  closed = set_at ch true w.closed;
  panicked = w.panicked || w.closed ch;
  pc = set_at i (after_signal conn) w.pc;
}

-- The critical section of Subscribe, and what it makes of the channel and the run context that it finds.
abbrev pub after_lookup : (conn under ctx : Option ℕ) → Pc
after_lookup (some k) (some r') (some r) = subscribing k r
after_lookup _ _ _ = returned

abbrev pub opened : World → Option ℕ → Option ℕ
opened w none = none
opened w (some k) = w.open_under k

unfoldable pub subscribe_enter : World → ℕ → World
subscribe_enter w i = record w {
  pc = set_at i (after_lookup w.conn (opened w w.conn) w.run_ctx) w.pc;
}

-- Its `bindAndConsume`, which fails on a channel that has been closed since.
unfoldable pub subscribe_bind : World → ℕ → (conn ctx : ℕ) → (under : Option ℕ) → World
subscribe_bind w i k r none = record w { pc = set_at i returned w.pc }
subscribe_bind w i k r (some r') = record w {
  consumers = (k, r) ∷ w.consumers;
  pc = set_at i returned w.pc;
}

unfoldable pub dispatch : Pc → Action → World → ℕ → World
unfolding start_enter start_store start_wait start_finish start_clear stop_enter stop_revoke
    stop_test stop_close subscribe_enter subscribe_bind
dispatch idle call_start w i = start_enter w i
dispatch idle call_stop w i = stop_enter w i
dispatch idle call_subscribe w i = subscribe_enter w i
dispatch (subscribing k r) bound w i = subscribe_bind w i k r (w.open_under k)
dispatch (subscribing k r) bind_fails w i = record w { pc = set_at i returned w.pc }
dispatch (dialling s r) (dialled success) w i = start_store w i s r success
dispatch (preparing s r k) declare_fails w i = record w { pc = set_at i (undeclared r k) w.pc }
dispatch (preparing s r k) bind_fails w i = record w { pc = set_at i (aborting r k) w.pc }
dispatch (preparing s r k) bound w i = start_bound w i s r k
dispatch (serving s r k) (step ctx_done) w i = start_wait w i s r k ctx_done
dispatch (leaving r k) (step _) w i = run_cancel w i r finishing
dispatch finishing (step _) w i = start_finish w i
dispatch (undeclared r k) (step _) w i = close_conn w i k
dispatch (aborting r k) (step _) w i = run_cancel w i r (clearing k)
dispatch (clearing k) (step _) w i = start_clear w i k
dispatch (discarding k) (step _) w i = close_conn w i k
dispatch (revoking ch conn ctx) (step _) w i = stop_revoke w i ch conn ctx
dispatch (testing ch conn) (step _) w i = stop_test w i ch conn
dispatch (signalling ch conn) (step _) w i = stop_close w i ch conn
dispatch (closing k) (step _) w i = close_conn w i k
dispatch _ _ w i = w

-- One step of thread `i`; where it cannot take the action nothing happens.
unfoldable pub move : World → ℕ × Action → World
unfolding dispatch
move w (i, a) = dispatch (w.pc i) a w i

-- A schedule: any interleaving of any number of calls.
unfoldable pub run : World → List (ℕ × Action) → World
unfolding move
run w [] = w
run w (m ∷ ms) = run (move w m) ms
