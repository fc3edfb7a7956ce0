-- ===== src/Prometheus/Lifecycle/Servers.antt =====
-- Which server each Stop of prometheus/prometheus.go has in hand: an invariant of the threads.
use samsara_components.Prelude.{
  ℕ, ◌<◌, ◌≤◌, true, ◌≡◌, ◌≢◌, refl, List, [], ◌∷◌, Option, none, some, arith,
}
use samsara_components.Prometheus.Lifecycle.{
  Pc, serving, testing, signalling, stopping, World, Action, new, move, run,
}

-- The stop channel, and the server, that a Stop has taken over.
abbrev pub held : Pc → Option ℕ
held (testing ch s) = some ch
held (signalling ch s) = some ch
held _ = none

-- That stop channel, where there is one.
abbrev pub chan : Pc → ℕ
chan (testing ch s) = ch
chan (signalling ch s) = ch
chan _ = 0

abbrev pub taken : Pc → Option ℕ
taken (testing ch s) = s
taken (signalling ch s) = s
taken (stopping s) = some s
taken _ = none

-- The server of a Start that still waits, and its stop channel.
abbrev pub server_of : Pc → Option ℕ
server_of (serving s ch) = some s
server_of _ = none

abbrev pub channel_of : Pc → Option ℕ
channel_of (serving s ch) = some ch
channel_of _ = none

abbrev pub stops : Pc → Option ℕ
stops (stopping s) = some s
stops _ = none

pub record Servers (w : World) : Type 0 where
  pub server_below : (s : ℕ) → w.server ≡ some s → s < w.next_server
  pub taken_below : (i s : ℕ) → taken (w.pc i) ≡ some s → s < w.next_server
  pub serving_below : (i s : ℕ) → server_of (w.pc i) ≡ some s → s < w.next_server
  pub not_lent : (i s : ℕ) → taken (w.pc i) ≡ some s → w.server ≢ some s
  pub only_taker : (i j s : ℕ) → taken (w.pc i) ≡ some s → taken (w.pc j) ≡ some s → i ≡ j
  pub current :
      (i s : ℕ)
      → w.server ≡ some s
      → server_of (w.pc i) ≡ some s
      → channel_of (w.pc i) ≡ some w.stop_ch
  pub in_hand :
      (i j s c : ℕ)
      → taken (w.pc i) ≡ some s
      → held (w.pc i) ≡ some c
      → server_of (w.pc j) ≡ some s
      → channel_of (w.pc j) ≡ some c
  pub signalled :
      (i j s c : ℕ)
      → stops (w.pc i) ≡ some s
      → server_of (w.pc j) ≡ some s
      → channel_of (w.pc j) ≡ some c
      → w.closed c ≡ true
  pub lent_unshut : (s : ℕ) → w.server ≡ some s → w.shutdowns s ≡ 0
  pub taken_unshut : (i s : ℕ) → taken (w.pc i) ≡ some s → w.shutdowns s ≡ 0
  pub unmade_unshut : (s : ℕ) → w.next_server ≤ s → w.shutdowns s ≡ 0
  pub at_most_once : (s : ℕ) → w.shutdowns s ≤ 1

module _ (w : World) (inv : Servers w) (i : ℕ) (a : Action) where
  next_server_below : (s : ℕ) → (move w (i, a)).server ≡ some s → s < (move w (i, a)).next_server
  unfolding move
  next_server_below s e = ground (arith, inv.server_below s)

  next_taken_below :
      (j s : ℕ) → taken ((move w (i, a)).pc j) ≡ some s → s < (move w (i, a)).next_server
  unfolding move
  next_taken_below j s e =
      ground (arith, inv.server_below s, inv.taken_below j s, inv.taken_below i s)

  next_serving_below :
      (j s : ℕ) → server_of ((move w (i, a)).pc j) ≡ some s → s < (move w (i, a)).next_server
  unfolding move
  next_serving_below j s e = ground (arith, inv.serving_below j s, inv.serving_below i s)

  next_not_lent :
      (j s : ℕ) → taken ((move w (i, a)).pc j) ≡ some s → (move w (i, a)).server ≢ some s
  unfolding move
  next_not_lent j s e = ground (
    arith,
    inv.server_below s,
    inv.taken_below j s,
    inv.taken_below i s,
    inv.not_lent j s,
    inv.not_lent i s,
  )

  next_only_taker :
      (j k s : ℕ)
      → taken ((move w (i, a)).pc j) ≡ some s
      → taken ((move w (i, a)).pc k) ≡ some s
      → j ≡ k
  unfolding move
  next_only_taker j k s e l = ground (
    arith,
    inv.only_taker j k s,
    inv.only_taker i k s,
    inv.only_taker j i s,
    inv.not_lent j s,
    inv.not_lent k s,
    inv.not_lent i s,
  )

  next_current :
      (j s : ℕ)
      → (move w (i, a)).server ≡ some s
      → server_of ((move w (i, a)).pc j) ≡ some s
      → channel_of ((move w (i, a)).pc j) ≡ some (move w (i, a)).stop_ch
  unfolding move
  next_current j s e l =
      ground (arith, inv.current j s, inv.serving_below j s, inv.serving_below i s)

  next_in_hand :
      (j k s c : ℕ)
      → taken ((move w (i, a)).pc j) ≡ some s
      → held ((move w (i, a)).pc j) ≡ some c
      → server_of ((move w (i, a)).pc k) ≡ some s
      → channel_of ((move w (i, a)).pc k) ≡ some c
  unfolding move
  next_in_hand j k s c e h l =
      ground (arith, inv.in_hand j k s c, inv.in_hand i k s c, inv.taken_below j s, inv.current k s)

  next_signalled :
      (j k s c : ℕ)
      → stops ((move w (i, a)).pc j) ≡ some s
      → server_of ((move w (i, a)).pc k) ≡ some s
      → channel_of ((move w (i, a)).pc k) ≡ some c
      → (move w (i, a)).closed c ≡ true
  unfolding move
  next_signalled j k s c e l h =
      ground (arith, inv.signalled j k s c, inv.in_hand i k s (chan (w.pc i)), inv.taken_below j s)

  next_lent_unshut : (s : ℕ) → (move w (i, a)).server ≡ some s → (move w (i, a)).shutdowns s ≡ 0
  unfolding move
  next_lent_unshut s e = ground (arith, inv.lent_unshut s, inv.not_lent i s, inv.unmade_unshut s)

  next_taken_unshut :
      (j s : ℕ) → taken ((move w (i, a)).pc j) ≡ some s → (move w (i, a)).shutdowns s ≡ 0
  unfolding move
  next_taken_unshut j s e =
      ground
        (arith, inv.lent_unshut s, inv.taken_unshut j s, inv.taken_unshut i s, inv.only_taker i j s)

  next_unmade_unshut : (s : ℕ) → (move w (i, a)).next_server ≤ s → (move w (i, a)).shutdowns s ≡ 0
  unfolding move
  next_unmade_unshut s e = ground (arith, inv.unmade_unshut s, inv.taken_below i s)

  next_at_most_once : (s : ℕ) → (move w (i, a)).shutdowns s ≤ 1
  unfolding move
  next_at_most_once s = ground (arith, inv.at_most_once s, inv.taken_unshut i s)

  move-Servers : Servers (move w (i, a))
  move-Servers = record {
    server_below = next_server_below;
    taken_below = next_taken_below;
    serving_below = next_serving_below;
    not_lent = next_not_lent;
    only_taker = next_only_taker;
    current = next_current;
    in_hand = next_in_hand;
    signalled = next_signalled;
    lent_unshut = next_lent_unshut;
    taken_unshut = next_taken_unshut;
    unmade_unshut = next_unmade_unshut;
    at_most_once = next_at_most_once;
  }

pub new-Servers : Servers new
unfolding new
new-Servers = record {
  server_below = λ s e. cc;
  taken_below = λ i s e. cc;
  serving_below = λ i s e. cc;
  not_lent = λ i s e. cc;
  only_taker = λ i j s e l. cc;
  current = λ i s e l. cc;
  in_hand = λ i j s c e h l. cc;
  signalled = λ i j s c e l h. cc;
  lent_unshut = λ s e. refl;
  taken_unshut = λ i s e. refl;
  unmade_unshut = λ s e. refl;
  at_most_once = λ s. omega arith;
}

pub run-Servers : (w : World) (ms : List (ℕ × Action)) → Servers w → Servers (run w ms)
unfolding run
run-Servers w [] inv = inv
run-Servers w ((i, a) ∷ ms) inv = run-Servers (move w (i, a)) ms (move-Servers w inv i a)
