-- ===== src/Sqlite/Lifecycle.antt =====
-- Start and Stop of sqlite/sqlite.go as threads of Runner, whose connection phase is that of Open.
use samsara_components.Prelude.{
  ℕ, String, true, false, ◌≡◌, ◌≢◌, List, Option, none, some, ◌⊎◌, inl, inr, ap,
}
use samsara_components.Go.Errors.{Error}
use samsara_components.Go.Handles.{Outcome, failed, ready}
use samsara_components.Runner.{World, Action, new}
use samsara_components.Runner as Threads
use samsara_components.Runner.Lending.{handle_of, taken, run-lends_open}
use samsara_components.Sqlite.Config.{Config, Texts, dsn}
use samsara_components.Sqlite.Open.{
  Host, Call, after_journal, after_ping, after_open, after_dir, ensure_dir, verify_journal_mode,
  open_database,
}

abbrev pub outcome_of : Error ⊎ ℕ → Outcome
outcome_of (inl e) = failed e
outcome_of (inr db) = ready db

-- `h` is what the file system and the driver answer to the Start of each thread.
module _ (t : Texts) (c : Config) (h : ℕ → Host) where
  unfoldable pub connect : ℕ → Option Outcome
  unfolding open_database
  connect i = some (outcome_of (open_database t c (h i)).1)

  unfoldable pub run : List (ℕ × Action) → World
  unfolding Threads.run connect new
  run ms = Threads.run connect new ms

  -- No two calls of sql.Open return the same handle.
  abbrev pub IsFresh : Type 0
  IsFresh =
      (i j db : ℕ) (d e : String) → (h i).open_db d ≡ inr db → (h j).open_db e ≡ inr db → i ≡ j

  checked :
      (k db : ℕ) (calls : List Call) (r : Option Error)
      → handle_of (some (outcome_of (after_journal k calls r).1)) ≡ some db
      → k ≡ db
  checked k db calls none e = cc
  checked k db calls (some err) e = absurd cc

  pinged :
      (i k db : ℕ) (calls : List Call) (r : Option Error)
      → handle_of (some (outcome_of (after_ping t c (h i) k calls r).1)) ≡ some db
      → k ≡ db
  pinged i k db calls none e = checked k db _ (verify_journal_mode t c ((h i).journal k)) e
  pinged i k db calls (some err) e = absurd cc

  opened_as :
      (i db : ℕ) (calls : List Call) (r : Error ⊎ ℕ)
      → handle_of (some (outcome_of (after_open t c (h i) calls r).1)) ≡ some db
      → r ≡ inr db
  opened_as i db calls (inl err) e = absurd cc
  opened_as i db calls (inr k) e = ap inr (pinged i k db _ ((h i).ping k) e)

  in_dir :
      (i db : ℕ) (r : List Call × Option Error)
      → handle_of (some (outcome_of (after_dir t c (h i) r).1)) ≡ some db
      → (h i).open_db (dsn t c) ≡ inr db
  in_dir i db (calls, none) e = opened_as i db calls ((h i).open_db (dsn t c)) e
  in_dir i db (calls, some err) e = absurd cc

  made : (i db : ℕ) → handle_of (connect i) ≡ some db → (h i).open_db (dsn t c) ≡ inr db
  unfolding connect
  made i db e = in_dir i db (ensure_dir (h i) c) e

  -- If no two calls of sql.Open return the same handle, then after any interleaving of calls of Start and Stop
  -- the database that the component hands out is open, and no Stop that still has one to close has that
  -- one; and no stop channel has been closed twice.
  run_database :
      (ms : List (ℕ × Action)) (db : ℕ)
      → IsFresh
      → (run ms).handle ≡ some db
      → ((run ms).open_handles db ≡ true)
        × ((i : ℕ) → taken ((run ms).pc i) ≢ some db)
        × ((run ms).panicked ≡ false)
  unfolding run
  run_database ms db fresh lent =
      run-lends_open connect ms db
        (λ i j k e l. fresh i j k (dsn t c) (dsn t c) (made i k e) (made j k l)) lent
