-- ===== src/Grpcclient/Lifecycle.antt =====
-- Start and Stop of grpcclient/grpcclient.go as threads of Runner, whose connection phase is that of Connect.
use samsara_components.Prelude.{
  ℕ, true, false, ◌≡◌, ◌≢◌, List, Option, none, some, ◌⊎◌, inl, inr, ap, Bool-cases, arith,
}
use samsara_components.Go.Errors.{Error}
use samsara_components.Go.Handles.{Call, Outcome}
use samsara_components.Go.Tls.{Files, TlsConfig}
use samsara_components.Runner.{World, Action, new}
use samsara_components.Runner as Threads
use samsara_components.Runner.Lending.{handle_of, taken, run-lends_open}
use samsara_components.Grpcclient.Config.{Config, DialOption, transport_credentials}
use samsara_components.Grpcclient.Connect.{
  Library, wait_ready, after_loop, after_new, after_credentials, start, dial_opts,
}

abbrev pub outcome_of : Option (List Call × Outcome) → Option Outcome
outcome_of none = none
outcome_of (some (calls, r)) = some r

-- `l` is what the gRPC library answers to the Start of each thread, and `opts` the options that it finds; where `fuel` is too little for the wait
-- of a thread, it goes on waiting.
module _ (f : Files) (c : Config) (opts : ℕ → List DialOption) (fuel : ℕ) (l : ℕ → Library) where
  unfoldable pub connect : ℕ → Option Outcome
  unfolding start
  connect i = outcome_of (start (l i) f c (opts i) fuel)

  unfoldable pub run : List (ℕ × Action) → World
  unfolding Threads.run connect new
  run ms = Threads.run connect new ms

  -- No two calls of NewClient return the same connection.
  abbrev pub IsFresh : Type 0
  IsFresh =
      (i j conn : ℕ) (o p : List DialOption)
      → (l i).new_client c.target o ≡ inr conn
      → (l j).new_client c.target p ≡ inr conn
      → i ≡ j

  waited :
      (i k conn : ℕ) (r : Option (Option Error))
      → handle_of (outcome_of (after_loop (l i) c k r)) ≡ some conn
      → k ≡ conn
  waited i k conn none e = absurd cc
  waited i k conn (some none) e = cc
  waited i k conn (some (some err)) e = elim (Bool-cases (l i).ctx_done) [
    | inl d ↦ absurd (ground (arith, d, e))
    | inr d ↦ absurd (ground (arith, d, e))
  ]

  connected_as :
      (i conn : ℕ) (r : Error ⊎ ℕ)
      → handle_of (outcome_of (after_new (l i) c fuel r)) ≡ some conn
      → r ≡ inr conn
  connected_as i conn (inl err) e = absurd cc
  connected_as i conn (inr k) e = ap inr (waited i k conn (wait_ready (l i) fuel k 0) e)

  trusted :
      (i conn : ℕ) (r : Error ⊎ Option TlsConfig)
      → handle_of (outcome_of (after_credentials (l i) c (opts i) fuel r)) ≡ some conn
      → (o : List DialOption) × ((l i).new_client c.target o ≡ inr conn)
  trusted i conn (inl err) e = absurd cc
  trusted i conn (inr creds) e = (
    dial_opts c (opts i) creds,
    connected_as i conn ((l i).new_client c.target (dial_opts c (opts i) creds)) e,
  )

  made :
      (i conn : ℕ)
      → handle_of (connect i) ≡ some conn
      → (o : List DialOption) × ((l i).new_client c.target o ≡ inr conn)
  unfolding connect
  made i conn e = trusted i conn (transport_credentials f c.tls) e

  -- If no two calls of NewClient return the same connection, then after any interleaving of calls of Start and
  -- Stop the connection that the component hands out is open, and no Stop that still has one to close has
  -- that one; and no stop channel has been closed twice.
  run_conn :
      (ms : List (ℕ × Action)) (conn : ℕ)
      → IsFresh
      → (run ms).handle ≡ some conn
      → ((run ms).open_handles conn ≡ true)
        × ((i : ℕ) → taken ((run ms).pc i) ≢ some conn)
        × ((run ms).panicked ≡ false)
  unfolding run
  run_conn ms conn fresh lent =
      run-lends_open connect ms conn
        (λ i j k e l. fresh i j k (made i k e).0 (made j k l).0 (made i k e).1 (made j k l).1) lent
