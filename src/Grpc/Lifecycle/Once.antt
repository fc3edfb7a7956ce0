-- ===== src/Grpc/Lifecycle/Once.antt =====
-- No server is drained twice.
use samsara_components.Prelude.{
  ℕ, ◌<◌, ◌≤◌, ◌≡◌, ◌≢◌, refl, List, [], ◌∷◌, Option, none, some, arith,
}
use samsara_components.Grpc.Lifecycle.{
  Pc, testing, signalling, stopping, draining, World, Action, new, move, run,
}

-- The server that a thread has taken over and will drain.
abbrev pub held : Pc → Option ℕ
held (testing ch server) = server
held (signalling ch server) = server
held (stopping h) = some h
held _ = none

-- The server that a thread waits to see drained.
abbrev pub drains : Pc → Option ℕ
drains (draining h) = some h
drains _ = none

pub record Inv (w : World) : Type 0 where
  pub server_below : (h : ℕ) → w.server ≡ some h → h < w.next_server
  pub held_below : (i h : ℕ) → held (w.pc i) ≡ some h → h < w.next_server
  pub apart : (i h : ℕ) → held (w.pc i) ≡ some h → w.server ≢ some h
  pub unique : (i j h : ℕ) → held (w.pc i) ≡ some h → held (w.pc j) ≡ some h → i ≡ j
  pub server_undrained : (h : ℕ) → w.server ≡ some h → w.graceful h ≡ 0
  pub held_undrained : (i h : ℕ) → held (w.pc i) ≡ some h → w.graceful h ≡ 0
  pub drained_below : (h : ℕ) → w.next_server ≤ h → w.graceful h ≡ 0
  pub at_most_once : (h : ℕ) → w.graceful h ≤ 1
  pub draining_once : (i h : ℕ) → drains (w.pc i) ≡ some h → w.graceful h ≡ 1
  pub draining_unforced : (i h : ℕ) → drains (w.pc i) ≡ some h → w.forced h ≡ 0
  pub one_drains : (i j h : ℕ) → drains (w.pc i) ≡ some h → drains (w.pc j) ≡ some h → i ≡ j
  pub forced_after : (h : ℕ) → w.forced h ≤ w.graceful h

module _ (w : World) (inv : Inv w) (i : ℕ) (a : Action) where
  next_server_below : (h : ℕ) → (move w (i, a)).server ≡ some h → h < (move w (i, a)).next_server
  unfolding move
  next_server_below h e = ground (arith, inv.server_below h)

  next_held_below :
      (j h : ℕ) → held ((move w (i, a)).pc j) ≡ some h → h < (move w (i, a)).next_server
  unfolding move
  next_held_below j h e = ground (arith, inv.server_below h, inv.held_below j h, inv.held_below i h)

  next_apart : (j h : ℕ) → held ((move w (i, a)).pc j) ≡ some h → (move w (i, a)).server ≢ some h
  unfolding move
  next_apart j h e = ground (
    arith,
    inv.server_below h,
    inv.held_below j h,
    inv.held_below i h,
    inv.apart j h,
    inv.apart i h,
  )

  next_unique :
      (j k h : ℕ)
      → held ((move w (i, a)).pc j) ≡ some h
      → held ((move w (i, a)).pc k) ≡ some h
      → j ≡ k
  unfolding move
  next_unique j k h e f = ground (
    arith,
    inv.unique j k h,
    inv.unique i k h,
    inv.unique j i h,
    inv.apart j h,
    inv.apart k h,
    inv.apart i h,
  )

  next_server_undrained : (h : ℕ) → (move w (i, a)).server ≡ some h → (move w (i, a)).graceful h ≡ 0
  unfolding move
  next_server_undrained h e =
      ground (arith, inv.server_undrained h, inv.apart i h, inv.drained_below h)

  next_held_undrained :
      (j h : ℕ) → held ((move w (i, a)).pc j) ≡ some h → (move w (i, a)).graceful h ≡ 0
  unfolding move
  next_held_undrained j h e = ground (
    arith,
    inv.server_undrained h,
    inv.held_undrained j h,
    inv.held_undrained i h,
    inv.unique i j h,
  )

  next_drained_below : (h : ℕ) → (move w (i, a)).next_server ≤ h → (move w (i, a)).graceful h ≡ 0
  unfolding move
  next_drained_below h e = ground (arith, inv.drained_below h, inv.held_below i h)

  next_at_most_once : (h : ℕ) → (move w (i, a)).graceful h ≤ 1
  unfolding move
  next_at_most_once h = ground (arith, inv.at_most_once h, inv.held_undrained i h)

  next_draining_once :
      (j h : ℕ) → drains ((move w (i, a)).pc j) ≡ some h → (move w (i, a)).graceful h ≡ 1
  unfolding move
  next_draining_once j h e =
      ground (arith, inv.draining_once j h, inv.held_undrained i h, inv.at_most_once h)

  next_draining_unforced :
      (j h : ℕ) → drains ((move w (i, a)).pc j) ≡ some h → (move w (i, a)).forced h ≡ 0
  unfolding move
  next_draining_unforced j h e = ground (
    arith,
    inv.draining_unforced j h,
    inv.held_undrained i h,
    inv.forced_after h,
    inv.one_drains i j h,
  )

  next_one_drains :
      (j k h : ℕ)
      → drains ((move w (i, a)).pc j) ≡ some h
      → drains ((move w (i, a)).pc k) ≡ some h
      → j ≡ k
  unfolding move
  next_one_drains j k h e f = ground (
    arith,
    inv.one_drains j k h,
    inv.draining_once j h,
    inv.draining_once k h,
    inv.held_undrained i h,
  )

  next_forced_after : (h : ℕ) → (move w (i, a)).forced h ≤ (move w (i, a)).graceful h
  unfolding move
  next_forced_after h =
      ground (arith, inv.forced_after h, inv.draining_once i h, inv.draining_unforced i h)

  move-Inv : Inv (move w (i, a))
  move-Inv = record {
    server_below = next_server_below;
    held_below = next_held_below;
    apart = next_apart;
    unique = next_unique;
    server_undrained = next_server_undrained;
    held_undrained = next_held_undrained;
    drained_below = next_drained_below;
    at_most_once = next_at_most_once;
    draining_once = next_draining_once;
    draining_unforced = next_draining_unforced;
    one_drains = next_one_drains;
    forced_after = next_forced_after;
  }

new-Inv : Inv new
unfolding new
new-Inv = record {
  server_below = λ h e. cc;
  held_below = λ i h e. cc;
  apart = λ i h e. cc;
  unique = λ i j h e f. cc;
  server_undrained = λ h e. refl;
  held_undrained = λ i h e. refl;
  drained_below = λ h e. refl;
  at_most_once = λ h. omega arith;
  draining_once = λ i h e. cc;
  draining_unforced = λ i h e. cc;
  one_drains = λ i j h e f. cc;
  forced_after = λ h. omega arith;
}

run-Inv : (w : World) (ms : List (ℕ × Action)) → Inv w → Inv (run w ms)
unfolding run
run-Inv w [] inv = inv
run-Inv w ((i, a) ∷ ms) inv = run-Inv (move w (i, a)) ms (move-Inv w inv i a)

-- Whatever calls of Start and Stop and whatever cancellations overlap, and however their steps
-- interleave, GracefulStop is called at most once on every server, by a Stop or by a watcher; and the
-- library's Stop, which breaks off what still runs, is called on no server more often than that.
pub run-drains_once :
    (ms : List (ℕ × Action)) (server : ℕ)
    → ((run new ms).graceful server ≤ 1)
      × ((run new ms).forced server ≤ (run new ms).graceful server)
run-drains_once ms server =
    let inv = run-Inv new ms new-Inv in (inv.at_most_once server, inv.forced_after server)
