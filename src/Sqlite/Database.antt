-- ===== src/Sqlite/Database.antt =====
-- sqlite/db.go and sqlite/metrics.go: the operations on the open database, timed and reported.
use samsara_components.Prelude.{
  ℕ, String, Bool, not, List, [], ◌∷◌, Option, none, some, ℤ, pos, if◌then◌else◌,
}
use samsara_components.Go.Errors.{
  Error, sentinel, errorf, errorf2, errors_is, sqlite_not_ready, sql_no_rows, sql_tx_done,
}
use samsara_components.Go.Report.{Report, Sink, Note, reported, sink_panicked, Observed}

abbrev pub err_not_ready : Error
err_not_ready = sentinel sqlite_not_ready

abbrev pub err_no_rows : Error
err_no_rows = sentinel sql_no_rows

unfoldable pub record_op : Sink → Report → List Note
record_op none r = []
record_op (some sink) r = if sink r then reported r ∷ sink_panicked r.op ∷ [] else reported r ∷ []

module _ {T : Type 0} where
  unfoldable pub observe :
      Sink
      → (db : Option ℕ) → String
      → (elapsed : ℤ) → (empty : T) → (ℕ → T × Option Error)
      → Observed T
  unfolding record_op
  observe sink none op elapsed empty fn = record {
    value = empty;
    err = some err_not_ready;
    notes = record_op sink (record { op = op; d = pos 0; err = some err_not_ready });
  }
  observe sink (some db) op elapsed empty fn =
      let (v, err) = fn db in
      record {
        value = v;
        err = err;
        notes = record_op sink (record { op = op; d = elapsed; err = err });
      }

unfoldable pub observe_err :
    Sink → (db : Option ℕ) → String → (elapsed : ℤ) → (ℕ → Option Error) → Observed (Unit {0})
unfolding observe
observe_err sink db op elapsed fn = observe sink db op elapsed tt (λ h. (tt, fn h))

unfoldable pub observe_tx : Sink → String → (elapsed : ℤ) → Option Error → Observed (Unit {0})
unfolding record_op
observe_tx sink op elapsed err = record {
  value = tt;
  err = err;
  notes = record_op sink (record { op = op; d = elapsed; err = err });
}

-- database/sql and sqlscan: what they answer to a query. `Q` is a query with its arguments, `Rows` what
-- is scanned out of the answer, `Res` the result of a statement.
pub record Driver (Q Rows Res : Type 0) : Type 0 where
  pub select : (db : ℕ) (q : Q) → Rows × Option Error
  pub get : (db : ℕ) (q : Q) → Rows × Option Error
  pub not_found : Error → Bool
  pub exec : (db : ℕ) (q : Q) → Res × Option Error
  pub begin : (db : ℕ) → ℕ × Option Error

-- An error that is passed on under a prefix; the destination is the caller's, so its rows stay.
abbrev pub prefixed : {T : Type 0} → String → T × Option Error → T × Option Error
prefixed f (v, none) = (v, none)
prefixed f (v, some e) = (v, some (errorf f [] e))

-- A result that is `nil` on an error.
abbrev pub or_nil : {T : Type 0} → String → T × Option Error → Option T × Option Error
or_nil f (v, none) = (some v, none)
or_nil f (v, some e) = (none, some (errorf f [] e))

abbrev pub get_result : {T : Type 0} → (Error → Bool) → T × Option Error → T × Option Error
get_result not_found (v, none) = (v, none)
get_result not_found (v, some e) =
    if not_found e
    then (v, some (errorf "sqlite get: %w" [] err_no_rows))
    else (v, some (errorf "sqlite get: %w" [] e))

module _ {Q Rows Res : Type 0} (d : Driver Q Rows Res) (sink : Sink) (db : Option ℕ)
    (elapsed : ℤ) where
  -- `dst` is what the destination holds before the call.
  unfoldable pub select : (dst : Rows) → Q → Observed Rows
  unfolding observe
  select dst q =
      observe sink db "sqlite.select" elapsed dst λ h. prefixed "sqlite select: %w" (d.select h q)

  unfoldable pub get : (dst : Rows) → Q → Observed Rows
  unfolding observe
  get dst q = observe sink db "sqlite.get" elapsed dst λ h. get_result d.not_found (d.get h q)

  unfoldable pub exec : Q → Observed (Option Res)
  unfolding observe
  exec q = observe sink db "sqlite.exec" elapsed none λ h. or_nil "sqlite exec: %w" (d.exec h q)

  unfoldable pub begin_tx : Observed (Option ℕ)
  unfolding observe
  begin_tx =
      observe sink db "sqlite.begin_tx" elapsed none λ h. or_nil "sqlite begin tx: %w" (d.begin h)

-- A transaction: what its two methods answer when they are called.
pub record Tx : Type 0 where
  pub commit : Option Error
  pub rollback : Option Error

pub data TxCall : Type 0 where
  committed : TxCall
  rolled_back : TxCall

-- What a rollback on account of `cause` returns.
unfoldable pub rollback_result : Option Error → (cause : Error) → Error
unfolding errors_is
rollback_result none cause = cause
rollback_result (some rb) cause =
    if not (errors_is rb sql_tx_done)
    then errorf2 "sqlite rollback (%w) after: %w" [] rb cause
    else cause

abbrev pub commit_result : Option Error → Option Error
commit_result none = none
commit_result (some e) = some (errorf "sqlite commit: %w" [] e)

-- CommitTx, with the calls that it makes of the transaction.
unfoldable pub commit_tx :
    Sink → (elapsed : ℤ) → Tx → (in_err : Option Error) → Observed (Unit {0}) × List TxCall
unfolding observe_tx rollback_result
commit_tx sink elapsed tx none =
    (observe_tx sink "sqlite.commit_tx" elapsed (commit_result tx.commit), committed ∷ [])
commit_tx sink elapsed tx (some e) = (
  observe_tx sink "sqlite.commit_tx" elapsed (some (rollback_result tx.rollback e)),
  rolled_back ∷ [],
)
