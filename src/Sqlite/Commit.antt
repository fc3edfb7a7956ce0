-- ===== src/Sqlite/Commit.antt =====
-- How sqlite/db.go ends a transaction.
use samsara_components.Prelude.{
  String, Bool, true, ◌||◌, ◌≡◌, refl, ap, [], ◌∷◌, Option, none, some, arith, ℤ, ◌↔◌, inl, inr,
  Bool-cases,
}
use samsara_components.Go.Errors.{Error, Sentinel, errors_is, sql_tx_done}
use samsara_components.Go.Report.{Report, Sink, reports, owed}
use samsara_components.Sqlite.Database.{
  record_op, observe_tx, Tx, committed, rolled_back, rollback_result, commit_result, commit_tx,
}

reports-record_op : (sink : Sink) (r : Report) → reports (record_op sink r) ≡ owed sink r
unfolding record_op
reports-record_op none r = refl
reports-record_op (some sink) r = ground arith

reports-observe_tx :
    (sink : Sink) (op : String) (elapsed : ℤ) (err : Option Error)
    → reports (observe_tx sink op elapsed err).notes
      ≡ owed sink (record { op = op; d = elapsed; err = err })
unfolding observe_tx
reports-observe_tx sink op elapsed err = reports-record_op sink _

commit_nil : (r : Option Error) → (commit_result r ≡ none) ↔ (r ≡ none)
commit_nil none = (λ h. refl, λ h. refl)
commit_nil (some e) = (λ h. cc, λ h. cc)

absorbed : (a b : Bool) → (b || (a || b)) ≡ (a || b)
absorbed a b = ground arith

same_or : (a : Bool) → (a || a) ≡ a
same_or a = ground arith

keeps_cause :
    (rb : Option Error) (cause : Error) (s : Sentinel)
    → (errors_is cause s || errors_is (rollback_result rb cause) s)
      ≡ errors_is (rollback_result rb cause) s
unfolding rollback_result errors_is
keeps_cause none cause s = same_or (errors_is cause s)
keeps_cause (some e) cause s = elim (Bool-cases (errors_is e sql_tx_done)) [
  | inl t ↦ rw t (same_or (errors_is cause s))
  | inr f ↦ rw f (absorbed (errors_is e s) (errors_is cause s))
]

-- The rollback took, or the transaction was over.
abbrev pub IsUndone : Tx → Type 0
IsUndone tx = (e : Error) → tx.rollback ≡ some e → errors_is e sql_tx_done ≡ true

undone_result :
    (rb : Option Error) (cause : Error)
    → ((e : Error) → rb ≡ some e → errors_is e sql_tx_done ≡ true)
    → rollback_result rb cause ≡ cause
unfolding rollback_result
undone_result none cause h = refl
undone_result (some e) cause h = rw (h e refl) refl

commit_reports :
    (sink : Sink) (elapsed : ℤ) (tx : Tx) (in_err : Option Error)
    → reports (commit_tx sink elapsed tx in_err).0.notes
      ≡ owed sink (record {
        op = "sqlite.commit_tx";
        d = elapsed;
        err = (commit_tx sink elapsed tx in_err).0.err;
      })
unfolding commit_tx observe_tx
commit_reports sink elapsed tx none = reports-record_op sink _
commit_reports sink elapsed tx (some e) = reports-record_op sink _

-- With no error of the caller's, CommitTx calls Commit once and Rollback never, and returns nil if and
-- only if the commit succeeds. With an error it calls Rollback once and Commit never, and returns an
-- error under which `errors.Is` finds every sentinel that it finds under the caller's. Either way a set
-- sink is handed one report, with the error that is returned.
pub commit_tx_lem :
    (sink : Sink) (elapsed : ℤ) (tx : Tx)
    → ((commit_tx sink elapsed tx none).1 ≡ committed ∷ [])
      × ((commit_tx sink elapsed tx none).0.err ≡ none ↔ tx.commit ≡ none)
      × ((e : Error)
          → ((commit_tx sink elapsed tx (some e)).1 ≡ rolled_back ∷ [])
            × (w : Error) × ((commit_tx sink elapsed tx (some e)).0.err ≡ some w)
            × ((s : Sentinel) → (errors_is e s || errors_is w s) ≡ errors_is w s))
      × ((in_err : Option Error)
          → reports (commit_tx sink elapsed tx in_err).0.notes
            ≡ owed sink (record {
              op = "sqlite.commit_tx";
              d = elapsed;
              err = (commit_tx sink elapsed tx in_err).0.err;
            }))
unfolding commit_tx observe_tx
commit_tx_lem sink elapsed tx = (
  refl,
  commit_nil tx.commit,
  λ e. (refl, rollback_result tx.rollback e, refl, keeps_cause tx.rollback e),
  commit_reports sink elapsed tx,
)

-- If the rollback takes, or fails only because the transaction is over already, CommitTx returns the
-- caller's own error.
pub commit_tx-undone :
    (sink : Sink) (elapsed : ℤ) (tx : Tx) (e : Error)
    → IsUndone tx
    → (commit_tx sink elapsed tx (some e)).0.err ≡ some e
unfolding commit_tx observe_tx
commit_tx-undone sink elapsed tx e u = ap some (undone_result tx.rollback e u)
