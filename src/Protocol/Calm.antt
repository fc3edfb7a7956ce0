-- ===== src/Protocol/Calm.antt =====
-- The machine closes no channel twice.
use samsara_components.Prelude.{
  ℕ, ◌<◌, Bool, true, false, ◌≡◌, ◌≢◌, ◌∙◌, refl, ap, List, [], ◌∷◌, Option, none, some, arith,
}
use samsara_components.Protocol.{
  Role, holding, signalling, Signals, Kind, idle_signals, dispatch, step, run, Machine, trace,
  view-run_new,
}

-- The channel that a Stop has taken over and may still close.
abbrev pub held : Role → Option ℕ
held (holding c) = some c
held (signalling c) = some c
held _ = none

abbrev pub is_signalling : Role → Bool
is_signalling (signalling c) = true
is_signalling _ = false

pub record Inv (s : Signals) : Type 0 where
  pub stop_below : s.stop_ch < s.next
  pub held_below : (i c : ℕ) → held (s.role i) ≡ some c → c < s.next
  pub apart : (i c : ℕ) → held (s.role i) ≡ some c → c ≢ s.stop_ch
  pub unique : (i j c : ℕ) → held (s.role i) ≡ some c → held (s.role j) ≡ some c → i ≡ j
  pub open_yet :
      (i c : ℕ) → is_signalling (s.role i) ≡ true → held (s.role i) ≡ some c → s.closed c ≡ false
  pub calm : s.panicked ≡ false

module _ (s : Signals) (inv : Inv s) (i : ℕ) (k : Kind) where
  next_stop_below : (step s (i, k)).stop_ch < (step s (i, k)).next
  unfolding step
  next_stop_below = ground (arith, inv.stop_below)

  next_held_below : (j c : ℕ) → held ((step s (i, k)).role j) ≡ some c → c < (step s (i, k)).next
  unfolding step
  next_held_below j c h = ground (arith, inv.stop_below, inv.held_below j c, inv.held_below i c)

  next_apart : (j c : ℕ) → held ((step s (i, k)).role j) ≡ some c → c ≢ (step s (i, k)).stop_ch
  unfolding step
  next_apart j c h =
      ground (arith, inv.stop_below, inv.held_below j c, inv.apart j c, inv.apart i c)

  next_unique :
      (j l c : ℕ)
      → held ((step s (i, k)).role j) ≡ some c
      → held ((step s (i, k)).role l) ≡ some c
      → j ≡ l
  unfolding step
  next_unique j l c h h' = ground (
    arith,
    inv.unique j l c,
    inv.unique i l c,
    inv.unique j i c,
    inv.apart j c,
    inv.apart l c,
    inv.apart i c,
  )

  next_open_yet :
      (j c : ℕ)
      → is_signalling ((step s (i, k)).role j) ≡ true
      → held ((step s (i, k)).role j) ≡ some c
      → (step s (i, k)).closed c ≡ false
  unfolding step
  next_open_yet j c g h =
      ground (arith, inv.open_yet j c, inv.open_yet i c, inv.held_below j c, inv.unique i j c)

  calm_from :
      (r : Role)
      → ((c : ℕ) → is_signalling r ≡ true → held r ≡ some c → s.closed c ≡ false)
      → (dispatch r k i s).panicked ≡ false
  unfolding dispatch
  calm_from (signalling c) l = ground (arith, inv.calm, l c refl refl)
  calm_from _ l = ground (arith, inv.calm)

  step-Inv : Inv (step s (i, k))
  unfolding step
  step-Inv = record {
    stop_below = next_stop_below;
    held_below = next_held_below;
    apart = next_apart;
    unique = next_unique;
    open_yet = next_open_yet;
    calm = calm_from (s.role i) (inv.open_yet i);
  }

idle-Inv : Inv idle_signals
unfolding idle_signals
idle-Inv = record {
  stop_below = omega arith;
  held_below = λ i c h. cc;
  apart = λ i c h. cc;
  unique = λ i j c h l. cc;
  open_yet = λ i c h l. cc;
  calm = refl;
}

run-Inv : (s : Signals) (ms : List (ℕ × Kind)) → Inv s → Inv (run s ms)
unfolding run
run-Inv s [] inv = inv
run-Inv s ((i, k) ∷ ms) inv = run-Inv (step s (i, k)) ms (step-Inv s inv i k)

-- However the threads of a machine interleave, no channel is closed twice.
pub run-calm : (m : Machine) (ms : List (ℕ × m.Action)) → (m.view (m.run m.new ms)).panicked ≡ false
run-calm m ms =
    ap (λ s. s.panicked) (view-run_new m ms)
    ∙ (run-Inv idle_signals (trace m m.new ms) idle-Inv).calm
