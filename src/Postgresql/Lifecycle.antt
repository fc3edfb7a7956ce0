-- ===== src/Postgresql/Lifecycle.antt =====
-- Start and Stop of postgresql/postgresql.go as threads of Runner, whose connection phase is that of Connect.
use samsara_components.Prelude.{
  ℕ, true, ◌≡◌, ◌≢◌, false, List, Option, none, some, ◌⊎◌, inl, inr, ap,
}
use samsara_components.Go.Errors.{Error}
use samsara_components.Go.Handles.{Outcome}
use samsara_components.Runner.{World, Action, new}
use samsara_components.Runner as Threads
use samsara_components.Runner.Lending.{handle_of, taken, run-lends_open}
use samsara_components.Postgresql.Config.{Config, dsn}
use samsara_components.Postgresql.Connect.{
  PoolConfig, Library, pool_config, after_ping, after_pool, after_parse, start,
}

-- `l` is what pgxpool answers to the Start of each thread, and `opts` what driverOptions returns to it.
module _ {Rest : Type 0} (l : ℕ → Library Rest) (c : Config)
    (opts : ℕ → List (PoolConfig Rest → PoolConfig Rest)) where
  unfoldable pub connect : ℕ → Option Outcome
  unfolding start
  connect i = some (start (l i) c (opts i)).1

  unfoldable pub run : List (ℕ × Action) → World
  unfolding Threads.run connect new
  run ms = Threads.run connect new ms

  -- No two calls of NewWithConfig return the same pool.
  abbrev pub IsFresh : Type 0
  IsFresh =
      (i j h : ℕ) (p q : PoolConfig Rest)
      → (l i).new_pool p ≡ inr h
      → (l j).new_pool q ≡ inr h
      → i ≡ j

  pinged :
      (i k h : ℕ) (r : Option Error) → handle_of (some (after_ping (l i) k r).1) ≡ some h → k ≡ h
  pinged i k h none e = cc
  pinged i k h (some err) e = absurd cc

  pooled : (i h : ℕ) (r : Error ⊎ ℕ) → handle_of (some (after_pool (l i) r).1) ≡ some h → r ≡ inr h
  pooled i h (inl err) e = absurd cc
  pooled i h (inr k) e = ap inr (pinged i k h ((l i).ping k) e)

  parsed :
      (i h : ℕ) (r : Error ⊎ PoolConfig Rest)
      → handle_of (some (after_parse (l i) c (opts i) r).1) ≡ some h
      → (p : PoolConfig Rest) × ((l i).new_pool p ≡ inr h)
  parsed i h (inl err) e = absurd cc
  parsed i h (inr p) e =
      (pool_config c (opts i) p, pooled i h ((l i).new_pool (pool_config c (opts i) p)) e)

  made :
      (i h : ℕ)
      → handle_of (connect i) ≡ some h
      → (p : PoolConfig Rest) × ((l i).new_pool p ≡ inr h)
  unfolding connect
  made i h e = parsed i h ((l i).parse_config (dsn (l i).url_string c)) e

  -- If no two calls of NewWithConfig return the same pool, then after any interleaving of calls of Start and
  -- Stop the pool that the component hands out is open, and no Stop that still has a pool to close has
  -- that one; and no stop channel has been closed twice.
  run_pool :
      (ms : List (ℕ × Action)) (pool : ℕ)
      → IsFresh
      → (run ms).handle ≡ some pool
      → ((run ms).open_handles pool ≡ true)
        × ((i : ℕ) → taken ((run ms).pc i) ≢ some pool)
        × ((run ms).panicked ≡ false)
  unfolding run
  run_pool ms pool fresh lent =
      run-lends_open connect ms pool
        (λ i j h e k. fresh i j h (made i h e).0 (made j h k).0 (made i h e).1 (made j h k).1) lent
