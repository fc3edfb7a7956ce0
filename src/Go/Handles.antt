-- ===== src/Go/Handles.antt =====
-- The calls of a client library by which a Start makes, checks and closes its handle.
use samsara_components.Prelude.{ℕ, String, Bool, true, false, ◌≡◌, List, count}
use samsara_components.Go.Errors.{Error}

pub data Call : Type 0 where
  made : (handle : ℕ) → Call
  used : (what : String) (handle : ℕ) → Call
  closed : (handle : ℕ) → Call

abbrev pub is_made : Call → Bool
is_made (made h) = true
is_made _ = false

abbrev pub is_closed : Call → Bool
is_closed (closed h) = true
is_closed _ = false

-- How a Start ends before it waits: with an error; with nil, since its context was cancelled; or with
-- the handle that it has stored.
pub data Outcome : Type 0 where
  failed : Error → Outcome
  cancelled : Outcome
  ready : (handle : ℕ) → Outcome

-- Every handle that was made has been closed, but for the one that a Start holds when it is ready.
abbrev pub IsTidy : List Call × Outcome → Type 0
IsTidy (calls, failed e) = count is_made calls ≡ count is_closed calls
IsTidy (calls, cancelled) = count is_made calls ≡ count is_closed calls
IsTidy (calls, ready h) = (count is_made calls ≡ 1) × (count is_closed calls ≡ 0)
