-- ===== src/Rabbitmq/Report.antt =====
-- What a call of the Publisher of rabbitmq/messaging.go sends and reports to `Config.OnOperation`.
use samsara_components.Prelude.{
  ℕ, String, false, ◌≡◌, List, [], ◌∷◌, Option, some, ℤ, pos, is_some, if◌then◌else◌,
}
use samsara_components.Go.Errors.{Error, errors_is, rabbitmq_not_ready}
use samsara_components.Go.Table.{Table}
use samsara_components.Rabbitmq.Config.{Config}
use samsara_components.Rabbitmq.Amqp.{Publishing, Call, sink, Trace, Broker}
use samsara_components.Rabbitmq.Publish.{err_not_ready}
use samsara_components.Rabbitmq.Failure.Settle.{sent, live}

abbrev pub reports : Trace → List (String × ℤ × Option Error)
reports [] = []
reports (sink op d err ∷ t) = (op, d, err) ∷ reports t
reports (_ ∷ t) = reports t

-- No error of the broker's library has ErrNotReady among its causes.
abbrev pub IsForeign : Broker → Type 0
IsForeign b =
    (e : Error) (t : Trace) (c : Call)
    → b.answer t c ≡ some e
    → errors_is e rabbitmq_not_ready ≡ false

module _ (b : Broker) (cfg : Config) (exchange key : String) where
  -- With no live channel the call returns ErrNotReady, sends nothing, and reports a duration of zero;
  -- with one it sends the message once and reports the time it took.
  abbrev pub Reported : Option ℕ → String → ℤ → Publishing → Trace → Option Error × Trace → Type 0
  Reported ch op elapsed msg t (err, t') =
      (sent t' ≡ (if is_some (live b cfg ch t) then (exchange, key, msg) ∷ sent t else sent t))
      × (is_some (live b cfg ch t) ≡ false → err ≡ some err_not_ready)
      × (reports t' ≡ (
          if cfg.on_operation
          then (op, (if is_some (live b cfg ch t) then elapsed else pos 0), err) ∷ reports t
          else reports t))
