-- ===== src/Protocol.antt =====
-- The stop channels of a component, by which a Stop ends a Start: an abstract machine that the Start and Stop
-- of packages redis, rabbitmq, prometheus, s3, and those of Runner refine. It knows of a thread only
-- what its part in the exchange of signals is.
pub mod Calm
pub mod Wakeup
use samsara_components.Prelude.{
  ℕ, suc, Bool, true, false, ◌||◌, ◌≡◌, ap, ◌∙◌, List, [], ◌∷◌, if◌then◌else◌,
}
use samsara_components.Go.Threads.{set_at}

-- A Start that has made a channel and has not returned; a Stop that has taken a channel over, and one that has
-- found it open and is about to close it.
pub data Role : Type 0 where
  free : Role
  waiting holding signalling : (ch : ℕ) → Role

-- Channels are numbers, `next` the first that has not been made. `panicked` says that some thread has closed a
-- closed channel.
pub record Signals : Type 0 where
  pub stop_ch : ℕ
  pub next : ℕ
  pub closed : ℕ → Bool
  pub role : ℕ → Role
  pub panicked : Bool

-- The moves: a Start makes its channel, and returns; a Stop swaps the component's channel for a closed one,
-- looks at the one that it took, and closes it.
pub data Kind : Type 0 where
  quiet begins ends takes tests signals : Kind

unfoldable pub idle_signals : Signals
idle_signals = record {
  stop_ch = 0;
  next = 1;
  closed = λ c. false;
  role = λ i. free;
  panicked = false;
}

unfoldable pub dispatch : Role → Kind → ℕ → Signals → Signals
dispatch free begins i s = record s {
  stop_ch = s.next;
  next = suc s.next;
  role = set_at i (waiting s.next) s.role;
}
dispatch (waiting c) ends i s = record s { role = set_at i free s.role }
dispatch free takes i s = record s {
  stop_ch = s.next;
  closed = set_at s.next true s.closed;
  next = suc s.next;
  role = set_at i (holding s.stop_ch) s.role;
}
dispatch (holding c) tests i s = record s {
  role = set_at i (if s.closed c then free else signalling c) s.role;
}
dispatch (signalling c) signals i s = record s {
  closed = set_at c true s.closed;
  panicked = s.panicked || s.closed c;
  role = set_at i free s.role;
}
dispatch _ _ i s = s

unfoldable pub step : Signals → ℕ × Kind → Signals
unfolding dispatch
step s (i, k) = dispatch (s.role i) k i s

unfoldable pub run : Signals → List (ℕ × Kind) → Signals
unfolding step
run s [] = s
run s (m ∷ ms) = run (step s m) ms

-- Two states are the same if they are so channel by channel and thread by thread.
pub same_signals :
    {s t : Signals}
    → s.stop_ch ≡ t.stop_ch
    → s.next ≡ t.next
    → ((c : ℕ) → s.closed c ≡ t.closed c)
    → ((i : ℕ) → s.role i ≡ t.role i)
    → s.panicked ≡ t.panicked
    → s ≡ t
same_signals a b c d e = λ i. record {
  stop_ch = a i;
  next = b i;
  closed = λ x. c x i;
  role = λ x. d x i;
  panicked = e i;
}

-- A machine that steps as this one does: a component with its calls of Start and Stop as threads. Its states
-- are seen as `view` says, and each of its moves is the move of the kind that `kind` says.
pub record Machine : Type 1 where
  pub World : Type 0
  pub Action : Type 0
  pub new : World
  pub move : World → ℕ × Action → World
  pub run : World → List (ℕ × Action) → World
  pub view : World → Signals
  pub kind : World → ℕ → Action → Kind
  pub run-nil : (w : World) → run w [] ≡ w
  pub run-cons :
      (w : World) (m : ℕ × Action) (ms : List (ℕ × Action)) → run w (m ∷ ms) ≡ run (move w m) ms
  pub view-new : view new ≡ idle_signals
  pub view-move :
      (w : World) (i : ℕ) (a : Action) → view (move w (i, a)) ≡ step (view w) (i, kind w i a)

module _ (m : Machine) where
  open m use {World, Action, move, view, kind}

  -- The moves of the abstract machine that a schedule comes to.
  abbrev pub trace : World → List (ℕ × Action) → List (ℕ × Kind)
  trace w [] = []
  trace w ((i, a) ∷ ms) = (i, kind w i a) ∷ trace (move w (i, a)) ms

  pub view-run :
      (w : World) (ms : List (ℕ × Action)) → view (m.run w ms) ≡ run (view w) (trace w ms)
  unfolding run
  view-run w [] = ap view (m.run-nil w)
  view-run w ((i, a) ∷ ms) =
      ap view (m.run-cons w (i, a) ms)
      ∙ view-run (move w (i, a)) ms
      ∙ ap (λ s. run s (trace (move w (i, a)) ms)) (m.view-move w i a)

  pub view-run_new :
      (ms : List (ℕ × Action)) → view (m.run m.new ms) ≡ run idle_signals (trace m.new ms)
  view-run_new ms = rw (← m.view-new) (view-run m.new ms)
