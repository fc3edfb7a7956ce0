-- ===== src/Redis/Lifecycle.antt =====
-- Start and Stop of redis/redis.go as threads of Runner, whose connection phase is that of Connect.
pub mod Wakeup
use samsara_components.Prelude.{
  ℕ, true, ◌≡◌, ◌≢◌, ◌∙◌, sym, false, List, [], Option, none, some, ◌⊎◌, inl, inr, ap,
}
use samsara_components.Go.Errors.{Error, errorf}
use samsara_components.Go.Handles.{Outcome}
use samsara_components.Go.Tls.{TlsConfig, Files}
use samsara_components.Runner.{World, Action, new}
use samsara_components.Runner as Threads
use samsara_components.Runner.Signals.{run-calm}
use samsara_components.Runner.Lending.{handle_of, taken, run-lends_open}
use samsara_components.Redis.Config.{Config, Options, tls_config}
use samsara_components.Redis.Connect.{Library, client_options, after_ping, after_tls, start}

-- What Stop returns, from what the client's Close returns; `none` where the context is done first.
unfoldable pub stop_result : (close : Option (Option Error)) → Option Error
stop_result none = none
stop_result (some none) = none
stop_result (some (some e)) = some (errorf "redis: close: %w" [] e)

-- `l` and `f` are what go-redis and the file system answer to the Start of each thread, and `opts` what
-- driverOptions returns to it.
module _ (l : ℕ → Library) (f : ℕ → Files) (c : Config) (opts : ℕ → List (Options → Options)) where
  unfoldable pub connect : ℕ → Option Outcome
  unfolding start
  connect i = some (start (l i) (f i) c (opts i)).1

  unfoldable pub run : List (ℕ × Action) → World
  unfolding Threads.run connect new
  run ms = Threads.run connect new ms

  -- No two calls of NewClient return the same client.
  abbrev pub IsFresh : Type 0
  IsFresh = (i j : ℕ) (p q : Options) → (l i).new_client p ≡ (l j).new_client q → i ≡ j

  pinged :
      (i k h : ℕ) (r : Option Error) → handle_of (some (after_ping (l i) k r).1) ≡ some h → k ≡ h
  pinged i k h none e = cc
  pinged i k h (some err) e = absurd cc

  loaded :
      (i h : ℕ) (r : Error ⊎ Option TlsConfig)
      → handle_of (some (after_tls (l i) c (opts i) r).1) ≡ some h
      → (p : Options) × ((l i).new_client p ≡ h)
  loaded i h (inl err) e = absurd cc
  loaded i h (inr tls) e =
      let p = client_options c (opts i) tls in (p, pinged i _ h ((l i).ping ((l i).new_client p)) e)

  made : (i h : ℕ) → handle_of (connect i) ≡ some h → (p : Options) × ((l i).new_client p ≡ h)
  unfolding connect
  made i h e = loaded i h (tls_config (f i) c) e

  -- Whatever calls of Start and Stop overlap, and however their steps interleave, no stop channel is closed
  -- twice: the component never panics.
  pub run-never_panics : (ms : List (ℕ × Action)) → (run ms).panicked ≡ false
  unfolding run
  run-never_panics ms = run-calm connect ms

  -- If no two calls of NewClient return the same client, then whatever calls of Start and Stop overlap, and
  -- however their steps interleave: the client that the component hands out is open, and no Stop that
  -- still has a client to close has that one; and no stop channel has been closed twice.
  pub run_client :
      (ms : List (ℕ × Action)) (client : ℕ)
      → IsFresh
      → (run ms).handle ≡ some client
      → ((run ms).open_handles client ≡ true)
        × ((i : ℕ) → taken ((run ms).pc i) ≢ some client)
        × ((run ms).panicked ≡ false)
  unfolding run
  run_client ms client fresh lent =
      run-lends_open connect ms client
        (λ i j h e k. fresh i j (made i h e).0 (made j h k).0 ((made i h e).1 ∙ sym (made j h k).1))
        lent
