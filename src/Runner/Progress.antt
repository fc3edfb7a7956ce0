-- ===== src/Runner/Progress.antt =====
-- A Stop of Runner ends, and ends the Start that waits, whatever the other threads do in between.
use samsara_components.Prelude.{
  ℕ, suc, ◌≤◌, Bool, true, false, ◌&&◌, ◌==◌, ◌≡◌, ◌⊎◌, List, [], ◌∷◌, Option, some, arith,
  if◌then◌else◌,
}
use samsara_components.Go.Handles.{Outcome}
use samsara_components.Go.Threads.{turns}
use samsara_components.Runner.{
  Pc, idle, serving, testing, signalling, closing, returned, World, Action, call_stop, step, move,
  run,
}
use samsara_components.Runner.Signals.{role_of}
use samsara_components.Protocol.Calm.{held}

-- How many steps of its own a Stop still has before it, at most.
abbrev pub steps_left : Pc → ℕ
steps_left (testing ch h) = 3
steps_left (signalling ch h) = 2
steps_left (closing h) = 1
steps_left _ = 0

-- A Stop that has taken the component's channel over, or has returned.
abbrev pub has_begun : Pc → Bool
has_begun (testing ch h) = true
has_begun (signalling ch h) = true
has_begun (closing h) = true
has_begun returned = true
has_begun _ = false

abbrev pub is_step : Action → Bool
is_step (step d) = true
is_step _ = false

module _ (connect : ℕ → Option Outcome) (i j s : ℕ) where
  -- Thread j is a Stop that is on its way to close channel s, or s is closed; thread i is a Start that waits
  -- for s, or has returned.
  abbrev Ends : World → Type 0
  Ends w =
      (has_begun (w.pc j) ≡ true)
      × ((held (role_of (w.pc j)) ≡ some s) ⊎ (w.closed s ≡ true))
      × ((w.pc i ≡ serving s) ⊎ (w.pc i ≡ returned))

  begun_stays :
      (w : World) (k : ℕ) (a : Action)
      → has_begun (w.pc j) ≡ true
      → has_begun ((move connect w (k, a)).pc j) ≡ true
  unfolding move
  begun_stays w k a h = ground arith

  steps_drop :
      (w : World) (k n : ℕ) (a : Action)
      → has_begun (w.pc j) ≡ true
      → steps_left (w.pc j) ≤ (if k == j && is_step a then suc n else n)
      → steps_left ((move connect w (k, a)).pc j) ≤ n
  unfolding move
  steps_drop w k n a h l = ground arith

  channel_stays :
      (w : World) (k : ℕ) (a : Action)
      → (held (role_of (w.pc j)) ≡ some s) ⊎ (w.closed s ≡ true)
      → (held (role_of ((move connect w (k, a)).pc j)) ≡ some s)
        ⊎ ((move connect w (k, a)).closed s ≡ true)
  unfolding move
  channel_stays w k a h = ground arith

  start_stays :
      (w : World) (k : ℕ) (a : Action)
      → (w.pc i ≡ serving s) ⊎ (w.pc i ≡ returned)
      → ((move connect w (k, a)).pc i ≡ serving s) ⊎ ((move connect w (k, a)).pc i ≡ returned)
  unfolding move
  start_stays w k a h = ground arith

  run-Ends :
      (w : World) (ms : List (ℕ × Action))
      → Ends w
      → steps_left (w.pc j) ≤ turns is_step j ms
      → Ends (run connect w ms) × (steps_left ((run connect w ms).pc j) ≤ 0)
  unfolding run
  run-Ends w [] e l = (e, l)
  run-Ends w ((k, a) ∷ ms) (b, c, p) l =
      run-Ends (move connect w (k, a)) ms
        (begun_stays w k a b, channel_stays w k a c, start_stays w k a p)
        (steps_drop w k (turns is_step j ms) a b l)

  at_end :
      (w : World)
      → Ends w
      → steps_left (w.pc j) ≤ 0
      → (w.pc j ≡ returned) × ((move connect w (i, step false)).pc i ≡ returned)
  unfolding move
  at_end w (b, c, p) l = ground arith

-- Stop is called while a Start waits on the component's stop channel, in whatever state the rest of the
-- component is. After any schedule that gives the Stop three steps, whichever calls the other threads
-- make and however their steps interleave, the Stop has returned, and the Start has returned or does so
-- at its next step, without a context that is done.
pub stop_ends_start :
    (connect : ℕ → Option Outcome) (w : World) (i j : ℕ) (ms : List (ℕ × Action))
    → w.pc i ≡ serving w.stop_ch
    → w.pc j ≡ idle
    → 3 ≤ turns is_step j ms
    → let w' = run connect (move connect w (j, call_stop)) ms in
      (w'.pc j ≡ returned) × ((move connect w' (i, step false)).pc i ≡ returned)
unfolding move
stop_ends_start connect w i j ms waits stands long =
    let w₁ = move connect w (j, call_stop) in
    let (e, l) =
      run-Ends connect i j w.stop_ch w₁ ms (ground arith, ground arith, ground arith)
        (ground arith) in
    at_end connect i j w.stop_ch (run connect w₁ ms) e l
