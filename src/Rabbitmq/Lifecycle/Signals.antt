-- ===== src/Rabbitmq/Lifecycle/Signals.antt =====
-- The threads of package rabbitmq exchange signals as Protocol says.
use samsara_components.Prelude.{ℕ, false, ◌||◌, ◌≡◌, refl, List, [], ◌∷◌, arith, if◌then◌else◌}
use samsara_components.Rabbitmq.Lifecycle.{
  Pc, idle, dialling, preparing, serving, revoking, testing, signalling, World, Action, call_start,
  call_stop, dialled, declare_fails, bind_fails, step, new, move, run,
}
use samsara_components.Protocol as Protocol
use samsara_components.Protocol.{
  Role, free, waiting, holding, Signals, Kind, quiet, begins, ends, takes, tests, signals, Machine,
  same_signals,
}
use samsara_components.Protocol.Calm as Calm

abbrev pub role_of : Pc → Role
role_of (dialling s r) = waiting s
role_of (preparing s r k) = waiting s
role_of (serving s r k) = waiting s
role_of (revoking ch k r) = holding ch
role_of (testing ch k) = holding ch
role_of (signalling ch k) = Role.signalling ch
role_of _ = free

abbrev pub view : World → Signals
view w = record {
  stop_ch = w.stop_ch;
  next = w.next;
  closed = w.closed;
  role = λ i. role_of (w.pc i);
  panicked = w.panicked;
}

pub view-new : view new ≡ Protocol.idle_signals
unfolding new Protocol.idle_signals
view-new = refl

abbrev pub kind_at : Pc → Action → World → Kind
kind_at idle call_start w = begins
kind_at idle call_stop w = takes
kind_at (dialling s r) (dialled false) w = ends
kind_at (preparing s r k) declare_fails w = ends
kind_at (preparing s r k) bind_fails w = ends
kind_at (serving s r k) (step ctx_done) w = if ctx_done || w.closed s then ends else quiet
kind_at (testing ch k) (step _) w = tests
kind_at (signalling ch k) (step _) w = signals
kind_at _ _ w = quiet

abbrev pub kind : World → ℕ → Action → Kind
kind w i a = kind_at (w.pc i) a w

pub view-move :
    (w : World) (i : ℕ) (a : Action) → view (move w (i, a)) ≡ Protocol.step (view w) (i, kind w i a)
unfolding move Protocol.step
view-move w i a =
    same_signals (ground arith) (ground arith) (λ c. ground arith) (λ j. ground arith)
      (ground arith)

pub run-cons :
    (w : World) (m : ℕ × Action) (ms : List (ℕ × Action)) → run w (m ∷ ms) ≡ run (move w m) ms
unfolding run
run-cons w m ms = refl

pub run-nil : (w : World) → run w [] ≡ w
unfolding run
run-nil w = refl

abbrev pub machine : Machine
machine = record {
  World = World;
  Action = Action;
  new = new;
  move = move;
  run = run;
  view = view;
  kind = kind;
  run-nil = run-nil;
  run-cons = run-cons;
  view-new = view-new;
  view-move = view-move;
}

-- However calls of Start and Stop overlap, no stop channel is closed twice.
pub run-calm : (ms : List (ℕ × Action)) → (run new ms).panicked ≡ false
run-calm ms = Calm.run-calm machine ms
