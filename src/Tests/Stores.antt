-- ===== src/Tests/Stores.antt =====
-- Inputs for packages redis and sqlite.
use mathlib.Core.List.{flatten}
use samsara_components.Prelude.{
  ℕ, zero, suc, String, true, false, ◌≡◌, refl, List, [], ◌∷◌, Option, none, some, arith, pos,
  negsuc, inr,
}
use samsara_components.Go.Errors.{Error, sentinel, redis_nil, sql_tx_done}
use samsara_components.Go.Report.{Sink}
use samsara_components.Redis.Client.{Driver, scan_loop}
use samsara_components.Redis.Client.Iterate.{Iteration, scans_agree}
use samsara_components.Sqlite.Config as SqliteConfig
use samsara_components.Sqlite.Database.{Tx, commit_tx, committed}
use samsara_components.Sqlite.Commit.{commit_tx_lem}
use samsara_components.Sqlite.Open.{Host, open_database, open_database_lem, Outcome}
use samsara_components.Runner.{Action, call_start, call_stop, step}

-- A server that hands out two batches, and has no such key.
abbrev two_batches : (round : ℕ) → List String × ℕ × Option Error
two_batches zero = ("a" ∷ "b" ∷ [], 17, none)
two_batches (suc n) = ("c" ∷ [], 0, none)

abbrev server : Driver String
server = record {
  set = λ h key value ttl. none;
  set_args_nx = λ h key value ttl. some (sentinel redis_nil);
  get = λ h key. ("", some (sentinel redis_nil));
  del = λ h keys. (pos 1, none);
  exists = λ h keys. (pos 1, none);
  incr = λ h key. (pos 1, none);
  expire = λ h key ttl. (true, none);
  ttl = λ h key. (negsuc 1, none);
  scan = λ h round cursor pattern count. two_batches round;
}

scans_agree_example : scan_loop server 1 "*" 3 0 0 [] ≡ some ("a" ∷ "b" ∷ "c" ∷ [], none)
unfolding flatten
scans_agree_example =
    (scans_agree server 1 "*" (λ seen key. none) (("a" ∷ "b" ∷ []) ∷ ("c" ∷ []) ∷ []) none 3
      (Iteration.more {next = 16} refl (Iteration.last refl)) (omega arith)).0

-- A sink that panics.
abbrev pub bad_sink : Sink
bad_sink = some (λ r. true)

abbrev memory_config : SqliteConfig.Config
memory_config = record {
  path = "";
  busy_timeout = pos 0;
  journal_mode = "wal";
  synchronous = "";
  disable_foreign_keys = false;
  max_open_conns = pos 8;
  connect_timeout = pos 0;
}

-- A transaction that is over already.
abbrev over : Tx
over = record { commit = some (sentinel sql_tx_done); rollback = some (sentinel sql_tx_done) }

commit_tx_lem_example : (commit_tx none (pos 4) over none).1 ≡ committed ∷ []
commit_tx_lem_example = (commit_tx_lem none (pos 4) over).0

abbrev sqlite_texts : SqliteConfig.Texts
sqlite_texts = record { to_upper = λ s. "WAL"; equal_fold = λ s t. false; query_escape = λ s. s }

abbrev sqlite_host : Host
sqlite_host = record {
  dir = λ p. ".";
  mkdir = λ d. none;
  open_db = λ d. inr 3;
  ping = λ db. none;
  journal = λ db. ("memory", none);
  select_one = λ db. (pos 1, none);
}

open_database_lem_example :
    Outcome sqlite_texts memory_config sqlite_host
      (open_database sqlite_texts memory_config sqlite_host)
open_database_lem_example = open_database_lem sqlite_texts memory_config sqlite_host

abbrev pub restarts : List (ℕ × Action)
restarts =
    (0, call_start)
    ∷ (0, step false)
    ∷ (1, call_stop)
    ∷ (2, call_start)
    ∷ (2, step false)
    ∷ (1, step false)
    ∷ []
