-- ===== src/Rabbitmq/Lifecycle/Progress.antt =====
-- A Stop of package rabbitmq ends, closes its connection, and ends the Start that waits, whatever the other
-- threads do in between.
use samsara_components.Prelude.{
  ℕ, suc, ◌≤◌, ◌<◌, Bool, true, false, ◌&&◌, ◌==◌, ◌≡◌, ◌⊎◌, List, [], ◌∷◌, Option, none, some,
  arith, if◌then◌else◌,
}
use samsara_components.Go.Threads.{turns}
use samsara_components.Rabbitmq.Lifecycle.{
  Pc, idle, serving, leaving, finishing, revoking, testing, signalling, closing, returned, World,
  Action, call_stop, step, move, run,
}
use samsara_components.Rabbitmq.Lifecycle.Signals.{role_of}
use samsara_components.Protocol.Calm.{held}

-- How many steps of its own a Stop still has before it, at most.
abbrev pub steps_left : Pc → ℕ
steps_left (revoking ch conn ctx) = 4
steps_left (testing ch conn) = 3
steps_left (signalling ch conn) = 2
steps_left (closing k) = 1
steps_left _ = 0

-- A Stop that has taken the component's channel over, or has returned.
abbrev pub has_begun : Pc → Bool
has_begun (revoking ch conn ctx) = true
has_begun (testing ch conn) = true
has_begun (signalling ch conn) = true
has_begun (closing k) = true
has_begun returned = true
has_begun _ = false

-- The connection that a Stop still has to close.
abbrev pub carried : Pc → Option ℕ
carried (revoking ch conn ctx) = conn
carried (testing ch conn) = conn
carried (signalling ch conn) = conn
carried (closing k) = some k
carried _ = none

abbrev pub is_step : Action → Bool
is_step (step d) = true
is_step _ = false

-- The last three steps of a Start: out of its select, its cancel function, and its last critical section.
abbrev pub leave : (i : ℕ) → List (ℕ × Action)
leave i = (i, step false) ∷ (i, step false) ∷ (i, step false) ∷ []

module _ (i j s r k : ℕ) where
  -- Thread i is a Start that waits for channel s under context r, or one that has come out of its select.
  abbrev IsLeaving : World → Pc → Type 0
  IsLeaving w p =
      (p ≡ serving s r k)
      ⊎ (p ≡ leaving r k)
      ⊎ (p ≡ finishing) × (w.cancelled r ≡ true)
      ⊎ (p ≡ returned) × (w.cancelled r ≡ true)

  -- Thread j is a Stop that is on its way to close channel s and connection k, or they are closed.
  abbrev Ends : World → Type 0
  Ends w =
      (has_begun (w.pc j) ≡ true)
      × ((held (role_of (w.pc j)) ≡ some s) ⊎ (w.closed s ≡ true))
      × ((carried (w.pc j) ≡ some k) ⊎ (w.open_under k ≡ none))
      × (k < w.next_conn)
      × IsLeaving w (w.pc i)

  begun_stays :
      (w : World) (x : ℕ) (a : Action)
      → has_begun (w.pc j) ≡ true
      → has_begun ((move w (x, a)).pc j) ≡ true
  unfolding move
  begun_stays w x a h = ground arith

  steps_drop :
      (w : World) (x n : ℕ) (a : Action)
      → has_begun (w.pc j) ≡ true
      → steps_left (w.pc j) ≤ (if x == j && is_step a then suc n else n)
      → steps_left ((move w (x, a)).pc j) ≤ n
  unfolding move
  steps_drop w x n a h l = ground arith

  channel_stays :
      (w : World) (x : ℕ) (a : Action)
      → (held (role_of (w.pc j)) ≡ some s) ⊎ (w.closed s ≡ true)
      → (held (role_of ((move w (x, a)).pc j)) ≡ some s) ⊎ ((move w (x, a)).closed s ≡ true)
  unfolding move
  channel_stays w x a h = ground arith

  conn_stays :
      (w : World) (x : ℕ) (a : Action)
      → (carried (w.pc j) ≡ some k) ⊎ (w.open_under k ≡ none)
      → k < w.next_conn
      → ((carried ((move w (x, a)).pc j) ≡ some k) ⊎ ((move w (x, a)).open_under k ≡ none))
        × (k < (move w (x, a)).next_conn)
  unfolding move
  conn_stays w x a h l = ground arith

  start_stays :
      (w : World) (x : ℕ) (a : Action)
      → IsLeaving w (w.pc i)
      → IsLeaving (move w (x, a)) ((move w (x, a)).pc i)
  unfolding move
  start_stays w x a h = ground arith

  run-Ends :
      (w : World) (ms : List (ℕ × Action))
      → Ends w
      → steps_left (w.pc j) ≤ turns is_step j ms
      → Ends (run w ms) × (steps_left ((run w ms).pc j) ≤ 0)
  unfolding run
  run-Ends w [] e l = (e, l)
  run-Ends w ((x, a) ∷ ms) (b, c, o, n, p) l =
      let (o', n') = conn_stays w x a o n in
      run-Ends (move w (x, a)) ms
        (begun_stays w x a b, channel_stays w x a c, o', n', start_stays w x a p)
        (steps_drop w x (turns is_step j ms) a b l)

  stop_at_end :
      (w : World)
      → Ends w
      → steps_left (w.pc j) ≤ 0
      → (w.pc j ≡ returned) × (w.open_under k ≡ none) × (w.closed s ≡ true)
  stop_at_end w (b, c, o, n, p) l = ground arith

  leaves_at_end :
      (w : World)
      → IsLeaving w (w.pc i)
      → w.closed s ≡ true
      → ((run w (leave i)).pc i ≡ returned) × ((run w (leave i)).cancelled r ≡ true)
  unfolding run
  leaves_at_end w p c = ground arith

-- Stop is called while a Start waits on the component's stop channel, having stored the connection that the
-- component hands out, one that has been made, in whatever state the rest of the component is. After any
-- schedule that gives the Stop four steps, whichever calls the other threads make and however their
-- steps interleave, the Stop has returned and that connection is closed; and the Start has returned or
-- does so within three steps of its own, without a context that is done, having cancelled the run
-- context of its consumers.
pub stop_closes_conn :
    (w : World) (i j r k : ℕ) (ms : List (ℕ × Action))
    → w.pc i ≡ serving w.stop_ch r k
    → w.conn ≡ some k
    → k < w.next_conn
    → w.pc j ≡ idle
    → 4 ≤ turns is_step j ms
    → let w' = run (move w (j, call_stop)) ms in
      (w'.pc j ≡ returned)
      × (w'.open_under k ≡ none)
      × ((run w' (leave i)).pc i ≡ returned)
      × ((run w' (leave i)).cancelled r ≡ true)
unfolding move
stop_closes_conn w i j r k ms waits lent below stands long =
    let w₁ = move w (j, call_stop) in
    let (e, l) =
      run-Ends i j w.stop_ch r k w₁ ms
        (ground arith, ground arith, ground arith, ground arith, ground arith) (ground arith) in
    let (ends, shut, told) = stop_at_end i j w.stop_ch r k (run w₁ ms) e l in
    let (back, revoked) = leaves_at_end i j w.stop_ch r k (run w₁ ms) e.4 told in
    (ends, shut, back, revoked)
