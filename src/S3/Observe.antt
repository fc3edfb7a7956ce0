-- ===== src/S3/Observe.antt =====
-- s3/metrics.go: an operation, timed and reported.
use samsara_components.Prelude.{
  String, ◌≡◌, refl, List, [], ◌∷◌, Option, none, some, arith, ℤ, pos, if◌then◌else◌,
}
use samsara_components.Go.Errors.{Error, sentinel, errors_is, s3_not_ready}
use samsara_components.Go.Report.{
  Report, Sink, Note, reported, sink_panicked, Observed, reports, owed,
}

abbrev pub err_not_ready : Error
err_not_ready = sentinel s3_not_ready

unfoldable pub record_op : Sink → Report → List Note
record_op none r = []
record_op (some sink) r = if sink r then reported r ∷ sink_panicked r.op ∷ [] else reported r ∷ []

-- The elapsed time, or nothing for an operation that was not attempted.
abbrev pub timed : Option Error → (elapsed : ℤ) → ℤ
timed none elapsed = elapsed
timed (some e) elapsed = if errors_is e s3_not_ready then pos 0 else elapsed

-- `result` is what the operation returned.
unfoldable pub observe :
    {T : Type 0} → Sink → String → (elapsed : ℤ) → T × Option Error → Observed T
unfolding record_op errors_is
observe sink op elapsed (v, err) = record {
  value = v;
  err = err;
  notes = record_op sink (record { op = op; d = timed err elapsed; err = err });
}

unfoldable pub observe_err : Sink → String → (elapsed : ℤ) → Option Error → Observed (Unit {0})
unfolding observe
observe_err sink op elapsed err = observe sink op elapsed (tt, err)

pub reports-observe :
    {T : Type 0} (sink : Sink) (op : String) (elapsed : ℤ) (result : T × Option Error)
    → reports (observe sink op elapsed result).notes
      ≡ owed sink (record { op = op; d = timed result.1 elapsed; err = result.1 })
unfolding observe record_op
reports-observe none op elapsed (v, e) = refl
reports-observe (some sink) op elapsed (v, e) = ground arith
