-- ===== src/Runner/Wakeup.antt =====
-- A Start of Runner that waits is not forgotten.
use samsara_components.Prelude.{ℕ, true, false, ◌≡◌, ◌⊎◌, inl, inr, List, Option, some, arith}
use samsara_components.Go.Handles.{Outcome}
use samsara_components.Runner.{serving, returned, World, Action, step, new, move, run}
use samsara_components.Runner.Signals.{role_of, machine}
use samsara_components.Protocol.Calm.{held}
use samsara_components.Protocol.Wakeup.{StartsApart, run-IsCovered_machine}

returns_lem :
    (connect : ℕ → Option Outcome) (w : World) (i s : ℕ)
    → w.pc i ≡ serving s
    → w.closed s ≡ true
    → (move connect w (i, step false)).pc i ≡ returned
unfolding move
returns_lem connect w i s e c = ground arith

-- If Start is never called while another Start runs, a Start that still waits is not forgotten. Its stop channel is the
-- component's, so that the next Stop takes it over, or a Stop holds it and is about to signal it, or it is
-- closed, and the Start returns at its next step.
pub run-IsWatched_waiting :
    (connect : ℕ → Option Outcome) (ms : List (ℕ × Action)) (i s : ℕ)
    → StartsApart (machine connect) new ms
    → (run connect new ms).pc i ≡ serving s
    → (s ≡ (run connect new ms).stop_ch)
      ⊎ ((j : ℕ) × (held (role_of ((run connect new ms).pc j)) ≡ some s))
      ⊎ ((move connect (run connect new ms) (i, step false)).pc i ≡ returned)
run-IsWatched_waiting connect ms i s single e =
    elim (run-IsCovered_machine (machine connect) ms single i s (rw e)) [
      | inl c ↦ inl c
      | inr (inl h) ↦ inr (inl h)
      | inr (inr c) ↦ inr (inr (returns_lem connect (run connect new ms) i s e c))
    ]
