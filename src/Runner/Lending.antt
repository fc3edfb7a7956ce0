-- ===== src/Runner/Lending.antt =====
-- No Stop closes a handle that the component still hands out.
use samsara_components.Prelude.{
  ℕ, Bool, true, false, ◌≡◌, ◌≢◌, List, [], ◌∷◌, Option, none, some, arith,
}
use samsara_components.Go.Handles.{Outcome, ready}
use samsara_components.Runner.{
  Pc, idle, connecting, testing, signalling, closing, World, Action, new, move, run,
}
use samsara_components.Runner.Signals.{run-calm}

-- The handle that a Stop has taken over.
abbrev pub taken : Pc → Option ℕ
taken (testing ch h) = h
taken (signalling ch h) = h
taken (closing h) = some h
taken _ = none

-- The thread may still connect.
abbrev pub is_early : Pc → Bool
is_early idle = true
is_early (connecting s) = true
is_early _ = false

-- The handle that a connection phase ends with.
abbrev pub handle_of : Option Outcome → Option ℕ
handle_of (some (ready h)) = some h
handle_of _ = none

module _ (connect : ℕ → Option Outcome) where
  pub record Lends (w : World) : Type 0 where
    pub lent_open : (h : ℕ) → w.handle ≡ some h → w.open_handles h ≡ true
    pub taken_open : (i h : ℕ) → taken (w.pc i) ≡ some h → w.open_handles h ≡ true
    pub not_lent : (i h : ℕ) → taken (w.pc i) ≡ some h → w.handle ≢ some h
    pub only_taker : (i j h : ℕ) → taken (w.pc i) ≡ some h → taken (w.pc j) ≡ some h → i ≡ j
    pub not_made :
        (i h : ℕ) → is_early (w.pc i) ≡ true → handle_of (connect i) ≡ some h → w.handle ≢ some h
    pub not_taken :
        (i j h : ℕ)
        → is_early (w.pc i) ≡ true
        → handle_of (connect i) ≡ some h
        → taken (w.pc j) ≢ some h

  -- Each handle comes out of one connection phase.
  abbrev pub IsApart : Type 0
  IsApart = (i j h : ℕ) → handle_of (connect i) ≡ some h → handle_of (connect j) ≡ some h → i ≡ j

  module _ (w : World) (inv : Lends w) (once : IsApart) (i : ℕ) (a : Action) where
    next_lent_open :
        (h : ℕ)
        → (move connect w (i, a)).handle ≡ some h
        → (move connect w (i, a)).open_handles h ≡ true
    unfolding move
    next_lent_open h e = ground (arith, inv.lent_open h, inv.not_lent i h)

    next_taken_open :
        (j h : ℕ)
        → taken ((move connect w (i, a)).pc j) ≡ some h
        → (move connect w (i, a)).open_handles h ≡ true
    unfolding move
    next_taken_open j h e =
        ground
          (arith, inv.lent_open h, inv.taken_open j h, inv.taken_open i h, inv.only_taker i j h)

    next_not_lent :
        (j h : ℕ)
        → taken ((move connect w (i, a)).pc j) ≡ some h
        → (move connect w (i, a)).handle ≢ some h
    unfolding move
    next_not_lent j h e = ground (arith, inv.not_lent j h, inv.not_lent i h, inv.not_taken i j h)

    next_only_taker :
        (j k h : ℕ)
        → taken ((move connect w (i, a)).pc j) ≡ some h
        → taken ((move connect w (i, a)).pc k) ≡ some h
        → j ≡ k
    unfolding move
    next_only_taker j k h e l = ground (
      arith,
      inv.only_taker j k h,
      inv.only_taker i k h,
      inv.only_taker j i h,
      inv.not_lent j h,
      inv.not_lent k h,
      inv.not_lent i h,
    )

    next_not_made :
        (j h : ℕ)
        → is_early ((move connect w (i, a)).pc j) ≡ true
        → handle_of (connect j) ≡ some h
        → (move connect w (i, a)).handle ≢ some h
    unfolding move
    next_not_made j h e l = ground (arith, inv.not_made j h, inv.not_made i h, once i j h)

    next_not_taken :
        (j k h : ℕ)
        → is_early ((move connect w (i, a)).pc j) ≡ true
        → handle_of (connect j) ≡ some h
        → taken ((move connect w (i, a)).pc k) ≢ some h
    unfolding move
    next_not_taken j k h e l =
        ground
          (arith, inv.not_taken j k h, inv.not_taken j i h, inv.not_made j h, inv.not_taken i k h)

    move-Lends : Lends (move connect w (i, a))
    move-Lends = record {
      lent_open = next_lent_open;
      taken_open = next_taken_open;
      not_lent = next_not_lent;
      only_taker = next_only_taker;
      not_made = next_not_made;
      not_taken = next_not_taken;
    }

  new-Lends : Lends new
  unfolding new
  new-Lends = record {
    lent_open = λ h e. cc;
    taken_open = λ i h e. cc;
    not_lent = λ i h e. cc;
    only_taker = λ i j h e l. cc;
    not_made = λ i h e l. λ k. cc;
    not_taken = λ i j h e l. λ k. cc;
  }

  run-Lends : (w : World) (ms : List (ℕ × Action)) → IsApart → Lends w → Lends (run connect w ms)
  unfolding run
  run-Lends w [] once inv = inv
  run-Lends w ((i, a) ∷ ms) once inv =
      run-Lends (move connect w (i, a)) ms once (move-Lends w inv once i a)

  -- If no two connection phases come to the same handle, then whatever calls of Start and Stop overlap, and
  -- however their steps interleave: a handle that the component hands out is open, and no Stop that still
  -- has a handle to close has that one; and no stop channel has been closed twice.
  pub run-lends_open :
      (ms : List (ℕ × Action)) (h : ℕ)
      → IsApart
      → (run connect new ms).handle ≡ some h
      → ((run connect new ms).open_handles h ≡ true)
        × ((i : ℕ) → taken ((run connect new ms).pc i) ≢ some h)
        × ((run connect new ms).panicked ≡ false)
  run-lends_open ms h once lent =
      let inv = run-Lends new ms once new-Lends in
      (inv.lent_open h lent, λ i t. inv.not_lent i h t lent, run-calm connect ms)
