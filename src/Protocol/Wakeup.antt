-- ===== src/Protocol/Wakeup.antt =====
-- A Stop is not missed: a Start can return once the Stop calls have got past their signal.
use samsara_components.Prelude.{
  ℕ, true, false, ◌≡◌, ◌≢◌, refl, ◌⊎◌, inl, inr, List, [], ◌∷◌, Option, none, some, arith, ◌==◌,
  Bool-cases, ==_iff,
}
use samsara_components.Protocol.{
  Role, waiting, holding, signalling, Signals, Kind, begins, idle_signals, dispatch, step, run,
  Machine, trace, view-run_new,
}
use samsara_components.Protocol.Calm.{held}

-- The channel of a Start that has not returned.
abbrev pub waits_on : Role → Option ℕ
waits_on (waiting c) = some c
waits_on _ = none

-- The channel is the component's, or a Stop is about to close it, or it is closed.
abbrev pub IsWatched : Signals → ℕ → Type 0
IsWatched s c = (c ≡ s.stop_ch) ⊎ ((j : ℕ) × (held (s.role j) ≡ some c)) ⊎ (s.closed c ≡ true)

abbrev pub IsCovered : Signals → Type 0
IsCovered s = (j c : ℕ) → waits_on (s.role j) ≡ some c → IsWatched s c

-- A Start begins only while no other Start runs.
abbrev pub IsSingle : Signals → List (ℕ × Kind) → Type 0
IsSingle s [] = Unit {0}
IsSingle s ((i, k) ∷ ms) =
    (k ≡ begins → (j : ℕ) → waits_on (s.role j) ≡ none) × IsSingle (step s (i, k)) ms

module _ (s : Signals) (i : ℕ) (c : ℕ) where
  closed_stays : (r : Role) (k : Kind) → s.closed c ≡ true → (dispatch r k i s).closed c ≡ true
  unfolding dispatch
  closed_stays r k h = ground arith

  holder_stays :
      (r : Role) (k : Kind) (j : ℕ)
      → s.role i ≡ r
      → i == j ≡ false
      → held (s.role j) ≡ some c
      → held ((dispatch r k i s).role j) ≡ some c
  unfolding dispatch
  holder_stays r k j e n h = ground arith

  -- The thread that moves held the channel: it still does, or the channel is closed.
  holder_moves :
      (r : Role) (k : Kind)
      → s.role i ≡ r
      → held r ≡ some c
      → (held ((dispatch r k i s).role i) ≡ some c) ⊎ ((dispatch r k i s).closed c ≡ true)
  unfolding dispatch
  holder_moves (holding d) k e h = ground arith
  holder_moves (signalling d) k e h = ground arith
  holder_moves _ k e h = ground arith

  -- The component's channel stays, unless a Stop takes it over or a Start replaces it.
  current_moves :
      (r : Role) (k : Kind)
      → s.role i ≡ r
      → k ≢ begins
      → c ≡ s.stop_ch
      → (c ≡ (dispatch r k i s).stop_ch) ⊎ (held ((dispatch r k i s).role i) ≡ some c)
  unfolding dispatch
  current_moves r k e n h = ground arith

  IsWatched-stays :
      (k : Kind) → k ≢ begins → IsWatched s c → IsWatched (dispatch (s.role i) k i s) c
  IsWatched-stays k n (inl e) = elim (current_moves (s.role i) k refl n e) [
    | inl d ↦ inl d
    | inr h ↦ inr (inl (i, h))
  ]
  IsWatched-stays k n (inr (inl (j, h))) = elim (Bool-cases (i == j)) [
    | inl same ↦ elim (holder_moves (s.role i) k refl (ground (arith, (==_iff i j).0 same, h))) [
      | inl h' ↦ inr (inl (i, h'))
      | inr d ↦ inr (inr d)
    ]
    | inr other ↦ inr (inl (j, holder_stays (s.role i) k j refl other h))
  ]
  IsWatched-stays k n (inr (inr d)) = inr (inr (closed_stays (s.role i) k d))

  waiting_before :
      (r : Role) (k : Kind) (j : ℕ)
      → s.role i ≡ r
      → k ≢ begins
      → waits_on ((dispatch r k i s).role j) ≡ some c
      → waits_on (s.role j) ≡ some c
  unfolding dispatch
  waiting_before r k j e n h = ground arith

  first_wait :
      (r : Role) (j : ℕ)
      → s.role i ≡ r
      → waits_on (s.role j) ≡ none
      → waits_on ((dispatch r begins i s).role j) ≡ some c
      → c ≡ (dispatch r begins i s).stop_ch
  unfolding dispatch
  first_wait r j e n h = ground arith

module _ (s : Signals) (covered : IsCovered s) where
  other_kind : (i : ℕ) (k : Kind) → k ≢ begins → IsCovered (step s (i, k))
  unfolding step
  other_kind i k n j c h =
      IsWatched-stays s i c k n (covered j c (waiting_before s i c (s.role i) k j refl n h))

  step-IsCovered :
      (i : ℕ) (k : Kind)
      → (k ≡ begins → (j : ℕ) → waits_on (s.role j) ≡ none)
      → IsCovered (step s (i, k))
  unfolding step
  step-IsCovered i begins single =
      λ j c h. inl (first_wait s i c (s.role i) j refl (single refl j) h)
  step-IsCovered i k single = other_kind i k (λ e. cc)

run-IsCovered :
    (s : Signals) (ms : List (ℕ × Kind)) → IsSingle s ms → IsCovered s → IsCovered (run s ms)
unfolding run
run-IsCovered s [] single h = h
run-IsCovered s ((i, k) ∷ ms) single h =
    run-IsCovered (step s (i, k)) ms single.1 (step-IsCovered s h i k single.0)

idle-IsCovered : IsCovered idle_signals
unfolding idle_signals
idle-IsCovered j c h = cc

module _ (m : Machine) where
  -- The same for the moves of a machine.
  abbrev pub StartsApart : m.World → List (ℕ × m.Action) → Type 0
  StartsApart w [] = Unit {0}
  StartsApart w ((i, a) ∷ ms) =
      (m.kind w i a ≡ begins → (j : ℕ) → waits_on ((m.view w).role j) ≡ none)
      × StartsApart (m.move w (i, a)) ms

  trace-IsSingle :
      (w : m.World) (s : Signals) (ms : List (ℕ × m.Action))
      → m.view w ≡ s
      → StartsApart w ms
      → IsSingle s (trace m w ms)
  trace-IsSingle w s [] e single = tt
  trace-IsSingle w s ((i, a) ∷ ms) e single = (
    rw (← e) single.0,
    trace-IsSingle (m.move w (i, a)) _ ms (rw (← e) (m.view-move w i a)) single.1,
  )

  -- A Start that still waits is not forgotten.
  pub run-IsCovered_machine :
      (ms : List (ℕ × m.Action)) → StartsApart m.new ms → IsCovered (m.view (m.run m.new ms))
  run-IsCovered_machine ms single = rw (view-run_new m ms) (
      run-IsCovered idle_signals (trace m m.new ms)
        (trace-IsSingle m.new idle_signals ms m.view-new single) idle-IsCovered)
