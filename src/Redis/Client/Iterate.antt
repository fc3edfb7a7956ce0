-- ===== src/Redis/Client/Iterate.antt =====
-- The two iterations of redis/client.go end when the server's does, and see the same keys.
use mathlib.Core.List.{flatten, append-nil, append_assoc}
use samsara_components.Prelude.{
  ℕ, zero, suc, ◌≤◌, ◌+◌, String, false, ◌≡◌, refl, ap, ◌∙◌, List, [], ◌∷◌, ◌++◌, Option, none,
  some, arith, ◌==◌, length, Option-cases, inl, inr,
}
use samsara_components.Go.Errors.{Error, errorf}
use samsara_components.Redis.Client.{
  Driver, scan_batch_size, Outcome, scan_loop, Callback, visit, func_turn, scan_func_loop,
}

suc-ne-zero : (n : ℕ) → (suc n == 0) ≡ false
suc-ne-zero n = ground arith

module _ {V : Type 0} (r : Driver V) (client : ℕ) (pattern : String) where
  -- An iteration of the server from a round and a cursor, and the batches that it hands out. It ends
  -- with a batch whose next cursor is zero, or with an error.
  pub data Iteration : (round cursor : ℕ) → List (List String) → Option Error → Type 0 where
    last :
        {round cursor : ℕ} {batch : List String}
        → r.scan client round cursor pattern scan_batch_size ≡ (batch, 0, none)
        → Iteration round cursor (batch ∷ []) none
    fails :
        {round cursor next : ℕ} {batch : List String} {e : Error}
        → r.scan client round cursor pattern scan_batch_size ≡ (batch, next, some e)
        → Iteration round cursor [] (some e)
    more :
        {round cursor next : ℕ} {batch : List String} {batches : List (List String)}
        {end : Option Error}
        → r.scan client round cursor pattern scan_batch_size ≡ (batch, suc next, none)
        → Iteration (suc round) (suc next) batches end
        → Iteration round cursor (batch ∷ batches) end

  -- What Scan makes of an iteration: all the keys in order, or none and the wrapped error.
  abbrev pub scanned : List String → Option Error → List String × Option Error
  scanned keys none = (keys, none)
  scanned keys (some e) = ([], some (errorf "redis scan %q: %w" (pattern ∷ []) e))

  scan_loop_from :
      {round cursor : ℕ} {batches : List (List String)} {end : Option Error}
      → Iteration round cursor batches end
      → (fuel : ℕ) (keys : List String) → length batches + 1 ≤ fuel
      → scan_loop r client pattern fuel round cursor keys
        ≡ some (scanned (keys ++ flatten batches) end)
  unfolding scan_loop flatten
  scan_loop_from i zero keys h = absurd (omega arith)
  scan_loop_from (last {batch} e) (suc fuel) keys h = rw e (rw append-nil refl)
  scan_loop_from (fails e) (suc fuel) keys h = rw e refl
  scan_loop_from (more {next} {batch} {batches} {end} e i) (suc fuel) keys h =
      rw (e, suc-ne-zero next)
        (scan_loop_from i fuel (keys ++ batch) (omega arith)
          ∙ ap (λ l. some (scanned l end)) (append_assoc keys batch (flatten batches)))

  -- What ScanFunc makes of an iteration: the callback is handed its keys in order, up to the first key
  -- at which it returns an error, which ScanFunc returns as it is; only if it returns none does the
  -- server's own error come through, wrapped.
  abbrev pub visited : Outcome → Option Error → Outcome
  visited (seen, some e) end = (seen, some e)
  visited (seen, none) none = (seen, none)
  visited (seen, none) (some e) = (seen, some (errorf "redis scanfunc %q: %w" (pattern ∷ []) e))

-- A callback that has seen some keys is handed these, one by one, up to the first at which it returns an error.
pub data Visits (fn : Callback) : (seen keys : List String) → Outcome → Type 0 where
  ends : {seen : List String} → Visits fn seen [] (seen, none)
  refuses :
      {seen keys : List String} {key : String} {e : Error}
      → fn seen key ≡ some e
      → Visits fn seen (key ∷ keys) (seen ++ key ∷ [], some e)
  goes_on :
      {seen keys : List String} {key : String} {out : Outcome}
      → fn seen key ≡ none
      → Visits fn (seen ++ key ∷ []) keys out
      → Visits fn seen (key ∷ keys) out

visit-Visits : (fn : Callback) (seen keys : List String) → Visits fn seen keys (visit fn seen keys)
unfolding visit
visit-Visits fn seen [] = ends
visit-Visits fn seen (key ∷ keys) = elim (Option-cases (fn seen key)) [
  | inl e ↦ rw (e, visit) (goes_on e (visit-Visits fn (seen ++ key ∷ []) keys))
  | inr (err, e) ↦ rw (e, visit) (refuses e)
]

-- `visit` goes on where it left off.
abbrev go_on : Callback → Outcome → List String → Outcome
go_on fn (seen, some e) ys = (seen, some e)
go_on fn (seen, none) ys = visit fn seen ys

visit-append :
    (fn : Callback) (seen xs ys : List String)
    → visit fn seen (xs ++ ys) ≡ go_on fn (visit fn seen xs) ys
unfolding visit
visit-append fn seen [] ys = refl
visit-append fn seen (x ∷ xs) ys = elim (Option-cases (fn seen x)) [
  | inl e ↦ rw (e, visit) (visit-append fn (seen ++ x ∷ []) xs ys)
  | inr (err, e) ↦ rw (e, visit) refl
]

module _ {V : Type 0} (r : Driver V) (client : ℕ) (pattern : String) (fn : Callback) where
  turn_last :
      (out : Outcome) (again : ℕ → List String → Option Outcome)
      → func_turn 0 again out ≡ some (visited r client pattern out none)
  turn_last (seen, none) again = refl
  turn_last (seen, some e) again = refl

  turn_more :
      (out : Outcome) (next : ℕ) (again : ℕ → List String → Option Outcome) (keys : List String)
      (end : Option Error)
      → ((seen : List String)
          → again (suc next) seen ≡ some (visited r client pattern (visit fn seen keys) end))
      → func_turn (suc next) again out ≡ some (visited r client pattern (go_on fn out keys) end)
  turn_more (seen, none) next again keys end h = rw (suc-ne-zero next) (h seen)
  turn_more (seen, some e) next again keys end h = refl

  scan_func_loop_from :
      {round cursor : ℕ} {batches : List (List String)} {end : Option Error}
      → Iteration r client pattern round cursor batches end
      → (fuel : ℕ) (seen : List String) → length batches + 1 ≤ fuel
      → scan_func_loop r client pattern fn fuel round cursor seen
        ≡ some (visited r client pattern (visit fn seen (flatten batches)) end)
  unfolding scan_func_loop flatten
  scan_func_loop_from i zero seen h = absurd (omega arith)
  scan_func_loop_from (last {round} {batch} e) (suc fuel) seen h =
      rw (e, append-nil batch)
        (turn_last (visit fn seen batch) (scan_func_loop r client pattern fn fuel (suc round)))
  scan_func_loop_from (fails e) (suc fuel) seen h = rw e refl
  scan_func_loop_from (more {round} {next} {batch} {batches} {end} e i) (suc fuel) seen h =
      rw (e, visit-append fn seen batch (flatten batches))
        (turn_more (visit fn seen batch) next (scan_func_loop r client pattern fn fuel (suc round))
          (flatten batches) end (λ seen'. scan_func_loop_from i fuel seen' (omega arith)))

-- If an iteration of the server hands out n batches and then ends, well or with an error, then with fuel
-- for n + 1 rounds both loops end. Scan returns all the keys, in order, or none of them and the wrapped
-- error. ScanFunc hands the keys to the callback in the same order, up to the first at which the callback
-- returns an error, which it returns as it is; if there is none it ends with the server's wrapped error,
-- or with nil.
pub scans_agree :
    {V : Type 0} (r : Driver V) (client : ℕ) (pattern : String) (fn : Callback)
    (batches : List (List String)) (end : Option Error) (fuel : ℕ)
    → Iteration r client pattern 0 0 batches end
    → length batches + 1 ≤ fuel
    → (scan_loop r client pattern fuel 0 0 []
        ≡ some (scanned r client pattern (flatten batches) end))
      × (out : Outcome) × Visits fn [] (flatten batches) out
      × (scan_func_loop r client pattern fn fuel 0 0 [] ≡ some (visited r client pattern out end))
scans_agree r client pattern fn batches end fuel i h = (
  scan_loop_from r client pattern i fuel [] h,
  visit fn [] (flatten batches),
  visit-Visits fn [] (flatten batches),
  scan_func_loop_from r client pattern fn i fuel [] h,
)
