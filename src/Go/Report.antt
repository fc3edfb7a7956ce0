-- ===== src/Go/Report.antt =====
-- The metrics sink that the packages' configurations name `OnOperation`: nil, or a function that is
-- handed the operation, its duration and its error, and that may panic.
use samsara_components.Prelude.{
  ◌≡◌, refl, arith, if◌then◌else◌, ℕ, pos, String, Bool, List, [], ◌∷◌, Option, none, some, ℤ,
}
use samsara_components.Go.Errors.{Error}

pub record Report : Type 0 where
  pub op : String
  pub d : ℤ
  pub err : Option Error

abbrev pub Sink : Type 0
Sink = Option (Report → Bool)

-- What an operation leaves behind: the report, and the log entry where the sink panics on it.
pub data Note : Type 0 where
  reported : Report → Note
  sink_panicked : (op : String) → Note

-- What an operation returns, with the notes that it leaves.
pub record Observed {ℓ} (T : Type ℓ) : Type ℓ where
  pub value : T
  pub err : Option Error
  pub notes : List Note

-- The reports among the notes.
abbrev pub reports : List Note → List Report
reports [] = []
reports (reported r ∷ ns) = r ∷ reports ns
reports (sink_panicked op ∷ ns) = reports ns

-- The one report that a sink is owed, if there is one.
abbrev pub owed : Sink → Report → List Report
owed none r = []
owed (some sink) r = r ∷ []

-- What an operation on a handle answers, `not_ready` without one.
abbrev pub answer :
    {T : Type 0} → (not_ready : Error) → Option ℕ → T → (ℕ → T × Option Error) → T × Option Error
answer not_ready none empty fn = (empty, some not_ready)
answer not_ready (some h) empty fn = fn h

-- The duration that it reports.
abbrev pub duration : Option ℕ → ℤ → ℤ
duration none elapsed = pos 0
duration (some h) elapsed = elapsed

-- `sink(op, d, err)` if there is a sink, with the recovery of its panic.
unfoldable pub deliver : Sink → Report → List Note
deliver none r = []
deliver (some sink) r = if sink r then reported r ∷ sink_panicked r.op ∷ [] else reported r ∷ []

pub reports-deliver : (sink : Sink) (r : Report) → reports (deliver sink r) ≡ owed sink r
unfolding deliver
reports-deliver none r = refl
reports-deliver (some sink) r = ground arith
