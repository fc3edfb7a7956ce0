-- ===== src/Redis/Observe.antt =====
-- redis/metrics.go: an operation on the live client, timed and reported.
use samsara_components.Prelude.{ℕ, String, List, [], ◌∷◌, Option, none, some, ℤ, pos, if◌then◌else◌}
use samsara_components.Go.Errors.{Error, sentinel, redis_not_ready}
use samsara_components.Go.Report.{Report, Sink, Note, reported, sink_panicked, Observed}

abbrev pub err_not_ready : Error
err_not_ready = sentinel redis_not_ready

-- A panic of the sink is recovered and logged.
unfoldable pub record_op : Sink → Report → List Note
record_op none r = []
record_op (some sink) r = if sink r then reported r ∷ sink_panicked r.op ∷ [] else reported r ∷ []

module _ {T : Type 0} where
  -- `empty` is the zero value of the result type, `elapsed` what the clock says after the call.
  unfoldable pub observe :
      Sink
      → (client : Option ℕ) → String
      → (elapsed : ℤ) → (empty : T) → (ℕ → T × Option Error)
      → Observed T
  unfolding record_op
  observe sink none op elapsed empty fn = record {
    value = empty;
    err = some err_not_ready;
    notes = record_op sink (record { op = op; d = pos 0; err = some err_not_ready });
  }
  observe sink (some client) op elapsed empty fn =
      let (v, err) = fn client in
      record {
        value = v;
        err = err;
        notes = record_op sink (record { op = op; d = elapsed; err = err });
      }

-- `observe` for the operations that return no value.
unfoldable pub observe_err :
    Sink → (client : Option ℕ) → String → (elapsed : ℤ) → (ℕ → Option Error) → Observed (Unit {0})
unfolding observe
observe_err sink client op elapsed fn = observe sink client op elapsed tt (λ h. (tt, fn h))
