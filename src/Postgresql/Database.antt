-- ===== src/Postgresql/Database.antt =====
-- postgresql/db.go and postgresql/metrics.go: the operations on the live pool, timed and reported.
use samsara_components.Prelude.{ℕ, String, List, [], ◌∷◌, Option, none, some, ℤ, pos}
use samsara_components.Go.Errors.{
  Error, sentinel, errorf, errorf2, postgresql_not_ready, pgx_no_rows,
}
use samsara_components.Go.Report.{Report, Sink, Note, deliver, Observed}

abbrev pub err_not_ready : Error
err_not_ready = sentinel postgresql_not_ready

abbrev pub err_no_rows : Error
err_no_rows = sentinel pgx_no_rows

unfoldable pub record_op : Sink → Report → List Note
record_op sink r = deliver sink r

module _ {T : Type 0} where
  unfoldable pub observe :
      Sink
      → (pool : Option ℕ) → String
      → (elapsed : ℤ) → (empty : T) → (ℕ → T × Option Error)
      → Observed T
  unfolding record_op
  observe sink none op elapsed empty fn = record {
    value = empty;
    err = some err_not_ready;
    notes = record_op sink (record { op = op; d = pos 0; err = some err_not_ready });
  }
  observe sink (some pool) op elapsed empty fn =
      let (v, err) = fn pool in
      record {
        value = v;
        err = err;
        notes = record_op sink (record { op = op; d = elapsed; err = err });
      }

unfoldable pub observe_err :
    Sink → (pool : Option ℕ) → String → (elapsed : ℤ) → (ℕ → Option Error) → Observed (Unit {0})
unfolding observe
observe_err sink pool op elapsed fn = observe sink pool op elapsed tt (λ h. (tt, fn h))

unfoldable pub observe_tx : Sink → String → (elapsed : ℤ) → Option Error → Observed (Unit {0})
unfolding record_op
observe_tx sink op elapsed err = record {
  value = tt;
  err = err;
  notes = record_op sink (record { op = op; d = elapsed; err = err });
}

-- pgxscan and the pool: what they answer to a query. `Q` is a query with its arguments, `Rows` what is
-- scanned out of the answer, `Tag` a command tag.
pub record Driver (Q Rows Tag : Type 0) : Type 0 where
  pub select : (pool : ℕ) (q : Q) → Rows × Option Error
  pub get : (pool : ℕ) (q : Q) → Rows × Option Error
  pub exec : (pool : ℕ) (q : Q) → Tag × Option Error
  pub begin : (pool : ℕ) → ℕ × Option Error

-- An error that is passed on under a prefix; what came with it stays.
abbrev pub prefixed : {T : Type 0} → String → T × Option Error → T × Option Error
prefixed f (v, none) = (v, none)
prefixed f (v, some e) = (v, some (errorf f [] e))

-- A result that is `nil` on an error.
abbrev pub or_nil : {T : Type 0} → String → T × Option Error → Option T × Option Error
or_nil f (v, none) = (some v, none)
or_nil f (v, some e) = (none, some (errorf f [] e))

module _ {Q Rows Tag : Type 0} (d : Driver Q Rows Tag) (sink : Sink) (pool : Option ℕ)
    (elapsed : ℤ) where
  -- `dst` is what the destination holds before the call.
  unfoldable pub select : (dst : Rows) → Q → Observed Rows
  unfolding observe
  select dst q =
      observe sink pool "postgres.select" elapsed dst
        λ h. prefixed "postgres select: %w" (d.select h q)

  unfoldable pub get : (dst : Rows) → Q → Observed Rows
  unfolding observe
  get dst q =
      observe sink pool "postgres.get" elapsed dst λ h. prefixed "postgres get: %w" (d.get h q)

  unfoldable pub exec : (no_tag : Tag) → Q → Observed Tag
  unfolding observe
  exec no_tag q =
      observe sink pool "postgres.exec" elapsed no_tag
        λ h. prefixed "postgres exec: %w" (d.exec h q)

  unfoldable pub begin_tx : Observed (Option ℕ)
  unfolding observe
  begin_tx =
      observe sink pool "postgres.begin_tx" elapsed none
        λ h. or_nil "postgres begin tx: %w" (d.begin h)

-- A transaction: what its two methods answer when they are called.
pub record Tx : Type 0 where
  pub commit : Option Error
  pub rollback : Option Error

pub data TxCall : Type 0 where
  committed : TxCall
  rolled_back : TxCall

-- What a rollback on account of `cause` returns.
unfoldable pub rollback_result : Option Error → (cause : Error) → Error
rollback_result none cause = cause
rollback_result (some rb) cause = errorf2 "postgres rollback (%w) after: %w" [] rb cause

abbrev pub commit_result : Option Error → Option Error
commit_result none = none
commit_result (some e) = some (errorf "postgres commit: %w" [] e)

-- CommitTx, with the calls that it makes of the transaction.
unfoldable pub commit_tx :
    Sink → (elapsed : ℤ) → Tx → (in_err : Option Error) → Observed (Unit {0}) × List TxCall
unfolding observe_tx rollback_result
commit_tx sink elapsed tx none =
    (observe_tx sink "postgres.commit_tx" elapsed (commit_result tx.commit), committed ∷ [])
commit_tx sink elapsed tx (some e) = (
  observe_tx sink "postgres.commit_tx" elapsed (some (rollback_result tx.rollback e)),
  rolled_back ∷ [],
)
