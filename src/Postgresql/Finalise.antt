-- ===== src/Postgresql/Finalise.antt =====
-- How postgresql/db.go ends a transaction, and what its operations report.
use samsara_components.Prelude.{
  ℕ, String, Bool, false, ◌||◌, ◌≡◌, refl, [], ◌∷◌, Option, none, some, ℤ, ◌↔◌,
}
use samsara_components.Go.Errors.{Error, Sentinel, errors_is}
use samsara_components.Go.Report.{Sink, reports, owed, reports-deliver, answer, duration}
use samsara_components.Postgresql.Database.{
  record_op, observe, observe_tx, Tx, committed, rolled_back, rollback_result, commit_result,
  commit_tx, err_not_ready,
}

-- `errors.Is` for an error that may be nil.
abbrev pub is_under : Option Error → Sentinel → Bool
is_under none s = false
is_under (some e) s = errors_is e s

both_kept :
    (rb : Option Error) (cause : Error) (s : Sentinel)
    → errors_is (rollback_result rb cause) s ≡ (is_under rb s || errors_is cause s)
unfolding rollback_result errors_is
both_kept none cause s = refl
both_kept (some e) cause s = refl

commit_nil : (r : Option Error) → (commit_result r ≡ none) ↔ (r ≡ none)
commit_nil none = (λ h. refl, λ h. refl)
commit_nil (some e) = (λ h. cc, λ h. cc)

commit_reports :
    (sink : Sink) (elapsed : ℤ) (tx : Tx) (in_err : Option Error)
    → reports (commit_tx sink elapsed tx in_err).0.notes
      ≡ owed sink (record {
        op = "postgres.commit_tx";
        d = elapsed;
        err = (commit_tx sink elapsed tx in_err).0.err;
      })
unfolding commit_tx observe_tx record_op
commit_reports sink elapsed tx none = reports-deliver sink _
commit_reports sink elapsed tx (some e) = reports-deliver sink _

-- With no error of the caller's, CommitTx calls Commit once and Rollback never, and returns nil if and
-- only if the commit succeeds. With an error it calls Rollback once and Commit never, and `errors.Is` finds
-- under the error that it returns exactly the sentinels under the caller's error and under that of the
-- rollback, if it failed. Either way a set sink is handed one report, with the error that is returned.
pub finalise_lem :
    (sink : Sink) (elapsed : ℤ) (tx : Tx)
    → ((commit_tx sink elapsed tx none).1 ≡ committed ∷ [])
      × ((commit_tx sink elapsed tx none).0.err ≡ none ↔ tx.commit ≡ none)
      × ((e : Error)
          → ((commit_tx sink elapsed tx (some e)).1 ≡ rolled_back ∷ [])
            × (w : Error) × ((commit_tx sink elapsed tx (some e)).0.err ≡ some w)
            × ((s : Sentinel) → errors_is w s ≡ (is_under tx.rollback s || errors_is e s)))
      × ((in_err : Option Error)
          → reports (commit_tx sink elapsed tx in_err).0.notes
            ≡ owed sink (record {
              op = "postgres.commit_tx";
              d = elapsed;
              err = (commit_tx sink elapsed tx in_err).0.err;
            }))
unfolding commit_tx observe_tx
finalise_lem sink elapsed tx = (
  refl,
  commit_nil tx.commit,
  λ e. (refl, rollback_result tx.rollback e, refl, both_kept tx.rollback e),
  commit_reports sink elapsed tx,
)

-- An operation without a live pool returns the zero value and ErrNotReady, the pool not being called,
-- and reports a duration of zero; with one, it returns what its call makes of the answer and reports the
-- elapsed time. A set sink is handed one report, with the error that is returned, also where it
-- panics on it.
pub observe_lem :
    {T : Type 0} (sink : Sink) (pool : Option ℕ) (op : String) (elapsed : ℤ) (empty : T)
    (fn : ℕ → T × Option Error)
    → ((observe sink pool op elapsed empty fn).value ≡ (answer err_not_ready pool empty fn).0)
      × ((observe sink pool op elapsed empty fn).err ≡ (answer err_not_ready pool empty fn).1)
      × (reports (observe sink pool op elapsed empty fn).notes
          ≡ owed sink (record {
            op = op;
            d = duration pool elapsed;
            err = (answer err_not_ready pool empty fn).1;
          }))
unfolding observe record_op
observe_lem sink none op elapsed empty fn = (refl, refl, reports-deliver sink _)
observe_lem sink (some h) op elapsed empty fn = (refl, refl, reports-deliver sink _)
