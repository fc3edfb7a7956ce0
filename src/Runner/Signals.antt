-- ===== src/Runner/Signals.antt =====
-- The threads of Runner exchange signals as Protocol says.
use samsara_components.Prelude.{
  ℕ, false, ◌||◌, ◌≡◌, refl, List, [], ◌∷◌, Option, some, arith, if◌then◌else◌,
}
use samsara_components.Go.Handles.{Outcome, failed, cancelled}
use samsara_components.Runner.{
  Pc, connecting, serving, testing, signalling, idle, World, Action, call_start, call_stop, step,
  new, move, run,
}
use samsara_components.Protocol as Protocol
use samsara_components.Protocol.{
  Role, free, waiting, holding, Signals, Kind, quiet, begins, ends, takes, tests, signals, Machine,
  same_signals,
}
use samsara_components.Protocol.Calm as Calm

abbrev pub role_of : Pc → Role
role_of (connecting s) = waiting s
role_of (serving s) = waiting s
role_of (testing ch h) = holding ch
role_of (signalling ch h) = Role.signalling ch
role_of _ = free

abbrev pub view : World → Signals
view w = record {
  stop_ch = w.stop_ch;
  next = w.next;
  closed = w.closed;
  role = λ i. role_of (w.pc i);
  panicked = w.panicked;
}

pub view-new : view new ≡ Protocol.idle_signals
unfolding new Protocol.idle_signals
view-new = refl

-- A connection phase that is not the last of its Start.
abbrev pub connects : Option Outcome → Kind
connects (some (failed e)) = ends
connects (some cancelled) = ends
connects _ = quiet

abbrev pub kind_at : Pc → Action → Option Outcome → World → Kind
kind_at idle call_start o w = begins
kind_at idle call_stop o w = takes
kind_at (connecting s) (step _) o w = connects o
kind_at (serving s) (step ctx_done) o w = if ctx_done || w.closed s then ends else quiet
kind_at (testing ch h) (step _) o w = tests
kind_at (signalling ch h) (step _) o w = signals
kind_at _ _ o w = quiet

module _ (connect : ℕ → Option Outcome) where
  abbrev pub kind : World → ℕ → Action → Kind
  kind w i a = kind_at (w.pc i) a (connect i) w

  pub view-move :
      (w : World) (i : ℕ) (a : Action)
      → view (move connect w (i, a)) ≡ Protocol.step (view w) (i, kind w i a)
  unfolding move Protocol.step
  view-move w i a =
      same_signals (ground arith) (ground arith) (λ c. ground arith) (λ j. ground arith)
        (ground arith)

  pub run-cons :
      (w : World) (m : ℕ × Action) (ms : List (ℕ × Action))
      → run connect w (m ∷ ms) ≡ run connect (move connect w m) ms
  unfolding run
  run-cons w m ms = refl

  pub run-nil : (w : World) → run connect w [] ≡ w
  unfolding run
  run-nil w = refl

  abbrev pub machine : Machine
  machine = record {
    World = World;
    Action = Action;
    new = new;
    move = move connect;
    run = run connect;
    view = view;
    kind = kind;
    run-nil = run-nil;
    run-cons = run-cons;
    view-new = view-new;
    view-move = view-move;
  }

-- However calls of Start and Stop overlap, no stop channel is closed twice.
pub run-calm :
    (connect : ℕ → Option Outcome) (ms : List (ℕ × Action)) → (run connect new ms).panicked ≡ false
run-calm connect ms = Calm.run-calm (machine connect) ms
