-- ===== src/Prometheus/Lifecycle/Signals.antt =====
-- The threads of package prometheus exchange signals as Protocol says.
use samsara_components.Prelude.{
  ℕ, true, false, ◌||◌, ◌≡◌, refl, List, [], ◌∷◌, arith, if◌then◌else◌,
}
use samsara_components.Prometheus.Lifecycle.{
  Pc, idle, serving, testing, signalling, World, Action, call_start, call_stop, served, step, new,
  move, run,
}
use samsara_components.Protocol as Protocol
use samsara_components.Protocol.{
  Role, free, waiting, holding, Signals, Kind, quiet, begins, ends, takes, tests, signals, Machine,
  same_signals,
}
use samsara_components.Protocol.Calm as Calm

abbrev pub role_of : Pc → Role
role_of (serving s ch) = waiting ch
role_of (testing ch s) = holding ch
role_of (signalling ch s) = Role.signalling ch
role_of _ = free

abbrev pub view : World → Signals
view w = record {
  stop_ch = w.stop_ch;
  next = w.next;
  closed = w.closed;
  role = λ i. role_of (w.pc i);
  panicked = w.panicked;
}

pub view-new : view new ≡ Protocol.idle_signals
unfolding new Protocol.idle_signals
view-new = refl

abbrev pub kind_at : Pc → Action → World → Kind
kind_at idle (call_start true) w = begins
kind_at idle call_stop w = takes
kind_at (serving s ch) (served _) w = ends
kind_at (serving s ch) (step ctx_done) w = if ctx_done || w.closed ch then ends else quiet
kind_at (testing ch s) (step _) w = tests
kind_at (signalling ch s) (step _) w = signals
kind_at _ _ w = quiet

abbrev pub kind : World → ℕ → Action → Kind
kind w i a = kind_at (w.pc i) a w

pub view-move :
    (w : World) (i : ℕ) (a : Action) → view (move w (i, a)) ≡ Protocol.step (view w) (i, kind w i a)
unfolding move Protocol.step
view-move w i a =
    same_signals (ground arith) (ground arith) (λ c. ground arith) (λ j. ground arith)
      (ground arith)

pub run-cons :
    (w : World) (m : ℕ × Action) (ms : List (ℕ × Action)) → run w (m ∷ ms) ≡ run (move w m) ms
unfolding run
run-cons w m ms = refl

pub run-nil : (w : World) → run w [] ≡ w
unfolding run
run-nil w = refl

abbrev pub machine : Machine
machine = record {
  World = World;
  Action = Action;
  new = new;
  move = move;
  run = run;
  view = view;
  kind = kind;
  run-nil = run-nil;
  run-cons = run-cons;
  view-new = view-new;
  view-move = view-move;
}

-- However calls of Start and Stop overlap, no stop channel is closed twice.
pub run-calm : (ms : List (ℕ × Action)) → (run new ms).panicked ≡ false
run-calm ms = Calm.run-calm machine ms
