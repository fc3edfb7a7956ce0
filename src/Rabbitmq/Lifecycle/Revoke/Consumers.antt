-- ===== src/Rabbitmq/Lifecycle/Revoke/Consumers.antt =====
-- Consumers are started under the run context of the Start that dialled their connection, or a later one.
use samsara_components.Prelude.{
  ℕ, ◌<◌, ◌≤◌, Bool, true, false, ◌==◌, ◌&&◌, ◌||◌, ◌≡◌, List, [], ◌∷◌, Option, none, some, arith,
}
use samsara_components.Rabbitmq.Lifecycle.{
  Pc, preparing, subscribing, World, Action, new, move, run,
}
use samsara_components.Rabbitmq.Lifecycle.Revoke.Covered.{live, IsSingle, Inv, owner, move-Inv}

-- Consumers have been started on connection `k` under context `r`.
unfoldable pub is_started : (k r : ℕ) → List (ℕ × ℕ) → Bool
is_started k r [] = false
is_started k r ((k', r') ∷ cs) = (k == k' && r == r') || is_started k r cs

-- The connection on which a thread is about to start consumers, and under which context.
abbrev binds_on : Pc → Option ℕ
binds_on (preparing s r k) = some k
binds_on (subscribing k r) = some k
binds_on _ = none

abbrev binds_under : Pc → Option ℕ
binds_under (preparing s r k) = some r
binds_under (subscribing k r) = some r
binds_under _ = none

pub record Later (w : World) : Type 0 where
  pub under_below : (k r : ℕ) → w.open_under k ≡ some r → r < w.next_ctx
  pub live_below : (j r : ℕ) → live (w.pc j) ≡ some r → r < w.next_ctx
  pub conn_here : (k : ℕ) → w.conn ≡ some k → k < w.next_conn
  pub binds_here : (j k : ℕ) → binds_on (w.pc j) ≡ some k → k < w.next_conn
  pub started_here : (k r : ℕ) → is_started k r w.consumers ≡ true → k < w.next_conn
  pub conn_later :
      (k r r' : ℕ) → w.conn ≡ some k → w.open_under k ≡ some r → w.run_ctx ≡ some r' → r ≤ r'
  pub binds_later :
      (j k r r' : ℕ)
      → binds_on (w.pc j) ≡ some k
      → w.open_under k ≡ some r
      → binds_under (w.pc j) ≡ some r'
      → r ≤ r'
  pub started_later :
      (k r r' : ℕ) → w.open_under k ≡ some r → is_started k r' w.consumers ≡ true → r ≤ r'

module _ (w : World) (i : ℕ) (inv : Inv w i) (l : Later w) (m : ℕ) (a : Action) where
  next_under_below :
      (k r : ℕ) → (move w (m, a)).open_under k ≡ some r → r < (move w (m, a)).next_ctx
  unfolding move
  next_under_below k r o = ground (arith, l.under_below k r, l.live_below m r)

  next_live_below : (j r : ℕ) → live ((move w (m, a)).pc j) ≡ some r → r < (move w (m, a)).next_ctx
  unfolding move
  next_live_below j r h = ground (arith, l.live_below j r, l.live_below m r)

  next_conn_here : (k : ℕ) → (move w (m, a)).conn ≡ some k → k < (move w (m, a)).next_conn
  unfolding move
  next_conn_here k h = ground (arith, l.conn_here k)

  next_binds_here :
      (j k : ℕ) → binds_on ((move w (m, a)).pc j) ≡ some k → k < (move w (m, a)).next_conn
  unfolding move
  next_binds_here j k h = ground (arith, l.binds_here j k, l.conn_here k)

  next_started_here :
      (k r : ℕ) → is_started k r (move w (m, a)).consumers ≡ true → k < (move w (m, a)).next_conn
  unfolding move is_started
  next_started_here k r h = ground (arith, l.started_here k r, l.binds_here m k)

  next_conn_later :
      (k r r' : ℕ)
      → (move w (m, a)).conn ≡ some k
      → (move w (m, a)).open_under k ≡ some r
      → (move w (m, a)).run_ctx ≡ some r'
      → r ≤ r'
  unfolding move
  next_conn_later k r r' h o c =
      ground (arith, l.conn_later k r r', l.under_below k r, inv.ctx_kept r, inv.only_start m)

  next_binds_later :
      (j k r r' : ℕ)
      → binds_on ((move w (m, a)).pc j) ≡ some k
      → (move w (m, a)).open_under k ≡ some r
      → binds_under ((move w (m, a)).pc j) ≡ some r'
      → r ≤ r'
  unfolding move
  next_binds_later j k r r' h o c =
      ground (arith, l.binds_later j k r r', l.conn_later k r r', l.binds_here j k)

  next_started_later :
      (k r r' : ℕ)
      → (move w (m, a)).open_under k ≡ some r
      → is_started k r' (move w (m, a)).consumers ≡ true
      → r ≤ r'
  unfolding move is_started
  next_started_later k r r' o h =
      ground (arith, l.started_later k r r', l.binds_later m k r r', l.started_here k r')

  move-Later : Later (move w (m, a))
  move-Later = record {
    under_below = next_under_below;
    live_below = next_live_below;
    conn_here = next_conn_here;
    binds_here = next_binds_here;
    started_here = next_started_here;
    conn_later = next_conn_later;
    binds_later = next_binds_later;
    started_later = next_started_later;
  }

pub new-Later : Later new
unfolding new is_started
new-Later = record {
  under_below = λ k r o. cc;
  live_below = λ j r h. cc;
  conn_here = λ k h. cc;
  binds_here = λ j k h. cc;
  started_here = λ k r h. cc;
  conn_later = λ k r r' h o c. cc;
  binds_later = λ j k r r' h o c. cc;
  started_later = λ k r r' o h. cc;
}

pub run-Later :
    (w : World) (ms : List (ℕ × Action)) (i : ℕ)
    → IsSingle w ms
    → Inv w i
    → Later w
    → Later (run w ms)
unfolding run
run-Later w [] i single inv l = l
run-Later w ((m, a) ∷ ms) i single inv l =
    run-Later (move w (m, a)) ms (owner a m i) single.1 (move-Inv w i inv m a single.0)
      (move-Later w i inv l m a)
