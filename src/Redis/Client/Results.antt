-- ===== src/Redis/Client/Results.antt =====
-- What the single-key operations of redis/client.go return and report.
use samsara_components.Prelude.{
  ℕ, String, true, false, ◌≡◌, refl, [], ◌∷◌, Option, none, some, arith, ℤ,
}
use samsara_components.Go.Errors.{Error, Sentinel, errors_is, redis_nil, errorf}
use samsara_components.Go.Report.{Report, Sink, reports, owed, answer, duration}
use samsara_components.Redis.Observe.{err_not_ready, record_op, observe}
use samsara_components.Redis.Client.{Driver, err_nil, get, set_nx}

reports-record_op : (sink : Sink) (r : Report) → reports (record_op sink r) ≡ owed sink r
unfolding record_op
reports-record_op none r = refl
reports-record_op (some sink) r = ground arith

-- An operation without a live client returns the zero value and ErrNotReady, the library not being
-- called, and reports a duration of zero; with one, it returns what its call makes of the reply and
-- reports the elapsed time. A set sink is handed one report, with the error that is returned, also where
-- it panics on it.
pub observe_lem :
    {T : Type 0} (sink : Sink) (client : Option ℕ) (op : String) (elapsed : ℤ) (empty : T)
    (fn : ℕ → T × Option Error)
    → ((observe sink client op elapsed empty fn).value ≡ (answer err_not_ready client empty fn).0)
      × ((observe sink client op elapsed empty fn).err ≡ (answer err_not_ready client empty fn).1)
      × (reports (observe sink client op elapsed empty fn).notes
          ≡ owed sink (record {
            op = op;
            d = duration client elapsed;
            err = (answer err_not_ready client empty fn).1;
          }))
unfolding observe
observe_lem sink none op elapsed empty fn = (refl, refl, reports-record_op sink _)
observe_lem sink (some h) op elapsed empty fn = (refl, refl, reports-record_op sink _)

-- An error is returned, and `errors.Is` finds the same sentinels under it as under `e`.
abbrev pub IsPassedOn : (e : Error) → Option Error → Type 0
IsPassedOn e r = (w : Error) × (r ≡ some w) × ((s : Sentinel) → errors_is w s ≡ errors_is e s)

module _ {V : Type 0} (r : Driver V) (sink : Sink) (h : ℕ) (elapsed : ℤ) where
  -- On a live client, where the library answers with redis.Nil or an error that wraps it, Get returns the
  -- bare ErrNil and SetNX returns false with no error.
  pub missing_key :
      (key v : String) (value : V) (ttl : ℤ) (e : Error)
      → r.get h key ≡ (v, some e)
      → r.set_args_nx h key value ttl ≡ some e
      → errors_is e redis_nil ≡ true
      → ((get r sink (some h) elapsed key).err ≡ some err_nil)
        × ((set_nx r sink (some h) elapsed key value ttl).value ≡ false)
        × ((set_nx r sink (some h) elapsed key value ttl).err ≡ none)
  unfolding get set_nx observe
  missing_key key v value ttl e g n k = (rw (g, k) refl, rw (n, k) refl, rw (n, k) refl)

  -- On a live client, where the library answers with any other error, Get and SetNX both fail, and `errors.Is` finds under either error
  -- exactly the sentinels that it finds under the library's, so never ErrNil.
  pub other_failure :
      (key v : String) (value : V) (ttl : ℤ) (e : Error)
      → r.get h key ≡ (v, some e)
      → r.set_args_nx h key value ttl ≡ some e
      → errors_is e redis_nil ≡ false
      → IsPassedOn e (get r sink (some h) elapsed key).err
        × IsPassedOn e (set_nx r sink (some h) elapsed key value ttl).err
  unfolding get set_nx observe errors_is
  other_failure key v value ttl e g n k = (
    (errorf "redis get %q: %w" (key ∷ []) e, rw (g, k) refl, λ s. refl),
    (errorf "redis setnx %q: %w" (key ∷ []) e, rw (n, k) refl, λ s. refl),
  )
