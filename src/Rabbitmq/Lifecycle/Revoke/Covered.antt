-- ===== src/Rabbitmq/Lifecycle/Revoke/Covered.antt =====
-- The run context of a connection stays in the hands of its Start, or of a Stop, until it is cancelled.
use samsara_components.Prelude.{
  ℕ, ◌<◌, Bool, true, false, ◌≡◌, List, [], ◌∷◌, Option, none, some, arith,
}
use samsara_components.Rabbitmq.Lifecycle.{
  Pc, dialling, preparing, serving, leaving, finishing, aborting, clearing, discarding, undeclared,
  revoking, testing, signalling, closing, World, Action, call_start, new, move, run,
}

-- The thread is in a call of Start.
abbrev pub is_start : Pc → Bool
is_start (dialling s r) = true
is_start (preparing s r k) = true
is_start (serving s r k) = true
is_start (leaving r k) = true
is_start finishing = true
is_start (aborting r k) = true
is_start (clearing k) = true
is_start (discarding k) = true
is_start (undeclared r k) = true
is_start _ = false

-- The run context that a Start has made and neither cancelled nor left.
abbrev pub live : Pc → Option ℕ
live (dialling s r) = some r
live (preparing s r k) = some r
live (serving s r k) = some r
live (leaving r k) = some r
live (aborting r k) = some r
live (undeclared r k) = some r
live _ = none

-- Its connection.
abbrev pub conn_of : Pc → Option ℕ
conn_of (preparing s r k) = some k
conn_of (serving s r k) = some k
conn_of (leaving r k) = some k
conn_of (aborting r k) = some k
conn_of (undeclared r k) = some k
conn_of _ = none

-- The connection and the run context that a Stop has taken over.
abbrev pub taken : Pc → Option ℕ
taken (revoking ch conn ctx) = conn
taken (testing ch conn) = conn
taken (signalling ch conn) = conn
taken (closing k) = some k
taken _ = none

abbrev pub to_cancel : Pc → Option ℕ
to_cancel (revoking ch conn ctx) = ctx
to_cancel _ = none

-- The supervisor calls Start only while no other Start is running.
abbrev pub IsSingle : World → List (ℕ × Action) → Type 0
IsSingle w [] = Unit {0}
IsSingle w ((i, a) ∷ ms) =
    ((j : ℕ) → a ≡ call_start → is_start (w.pc j) ≡ false) × IsSingle (move w (i, a)) ms

-- `i` is the thread that called Start last.
pub record Inv (w : World) (i : ℕ) : Type 0 where
  pub conn_below : (k : ℕ) → w.conn ≡ some k → k < w.next_conn
  pub taken_below : (j k : ℕ) → taken (w.pc j) ≡ some k → k < w.next_conn
  pub only_start : (j : ℕ) → is_start (w.pc j) ≡ true → j ≡ i
  pub ctx_kept : (r : ℕ) → live (w.pc i) ≡ some r → w.run_ctx ≡ some r
  pub covered :
      (k r : ℕ)
      → w.conn ≡ some k
      → w.open_under k ≡ some r
      → w.cancelled r ≡ false
      → live (w.pc i) ≡ some r
  pub covered_conn :
      (k r : ℕ)
      → w.conn ≡ some k
      → w.open_under k ≡ some r
      → w.cancelled r ≡ false
      → conn_of (w.pc i) ≡ some k
  pub taken_covered :
      (j k r : ℕ)
      → taken (w.pc j) ≡ some k
      → w.open_under k ≡ some r
      → w.cancelled r ≡ false
      → to_cancel (w.pc j) ≡ some r

-- The thread that called Start last, after thread `m` has done `a`.
abbrev pub owner : Action → (m i : ℕ) → ℕ
owner call_start m i = m
owner _ m i = i

module _ (w : World) (i : ℕ) (inv : Inv w i) (m : ℕ) (a : Action)
    (single : (j : ℕ) → a ≡ call_start → is_start (w.pc j) ≡ false) where
  next_conn_below : (k : ℕ) → (move w (m, a)).conn ≡ some k → k < (move w (m, a)).next_conn
  unfolding move
  next_conn_below k h = ground (arith, inv.conn_below k)

  next_taken_below :
      (j k : ℕ) → taken ((move w (m, a)).pc j) ≡ some k → k < (move w (m, a)).next_conn
  unfolding move
  next_taken_below j k h =
      ground (arith, inv.conn_below k, inv.taken_below j k, inv.taken_below m k)

  next_only_start : (j : ℕ) → is_start ((move w (m, a)).pc j) ≡ true → j ≡ owner a m i
  unfolding move
  next_only_start j h = ground (arith, inv.only_start j, inv.only_start m, single j)

  next_ctx_kept :
      (r : ℕ) → live ((move w (m, a)).pc (owner a m i)) ≡ some r → (move w (m, a)).run_ctx ≡ some r
  unfolding move
  next_ctx_kept r h = ground (arith, inv.ctx_kept r, inv.only_start m, single m)

  next_covered :
      (k r : ℕ)
      → (move w (m, a)).conn ≡ some k
      → (move w (m, a)).open_under k ≡ some r
      → (move w (m, a)).cancelled r ≡ false
      → live ((move w (m, a)).pc (owner a m i)) ≡ some r
  unfolding move
  next_covered k r h o c =
      ground (arith, inv.covered k r, inv.covered_conn k r, inv.only_start m, single m, single i)

  next_covered_conn :
      (k r : ℕ)
      → (move w (m, a)).conn ≡ some k
      → (move w (m, a)).open_under k ≡ some r
      → (move w (m, a)).cancelled r ≡ false
      → conn_of ((move w (m, a)).pc (owner a m i)) ≡ some k
  unfolding move
  next_covered_conn k r h o c =
      ground (arith, inv.covered k r, inv.covered_conn k r, inv.only_start m, single m, single i)

  next_taken_covered :
      (j k r : ℕ)
      → taken ((move w (m, a)).pc j) ≡ some k
      → (move w (m, a)).open_under k ≡ some r
      → (move w (m, a)).cancelled r ≡ false
      → to_cancel ((move w (m, a)).pc j) ≡ some r
  unfolding move
  next_taken_covered j k r h o c = ground (
    arith,
    inv.taken_covered j k r,
    inv.taken_covered m k r,
    inv.covered k r,
    inv.ctx_kept r,
    inv.taken_below j k,
  )

  pub move-Inv : Inv (move w (m, a)) (owner a m i)
  move-Inv = record {
    conn_below = next_conn_below;
    taken_below = next_taken_below;
    only_start = next_only_start;
    ctx_kept = next_ctx_kept;
    covered = next_covered;
    covered_conn = next_covered_conn;
    taken_covered = next_taken_covered;
  }

pub new-Inv : Inv new 0
unfolding new
new-Inv = record {
  conn_below = λ k h. cc;
  taken_below = λ j k h. cc;
  only_start = λ j h. cc;
  ctx_kept = λ r h. cc;
  covered = λ k r h o c. cc;
  covered_conn = λ k r h o c. cc;
  taken_covered = λ j k r h o c. cc;
}

pub run-Inv :
    (w : World) (ms : List (ℕ × Action)) (i : ℕ)
    → IsSingle w ms
    → Inv w i
    → (j : ℕ) × Inv (run w ms) j
unfolding run
run-Inv w [] i single inv = (i, inv)
run-Inv w ((m, a) ∷ ms) i single inv =
    run-Inv (move w (m, a)) ms (owner a m i) single.1 (move-Inv w i inv m a single.0)
