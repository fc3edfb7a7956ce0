-- ===== src/Rabbitmq/Publish.antt =====
-- The Publisher of rabbitmq/messaging.go and the reporting of rabbitmq/metrics.go.
use samsara_components.Prelude.{
  ℕ, String, Bool, false, List, [], ◌∷◌, Option, none, some, ℤ, pos, if◌then◌else◌,
}
use samsara_components.Go.Errors.{Error, sentinel, errorf, rabbitmq_not_ready, errors_is}
use samsara_components.Go.Table.{Table}
use samsara_components.Rabbitmq.Config.{Config, publish_timeout}
use samsara_components.Rabbitmq.Amqp.{
  Value, persistent, Publishing, publish_with_context, sink, log_error, Trace, Broker, Cmd, perform,
}

abbrev pub err_not_ready : Error
err_not_ready = sentinel rabbitmq_not_ready

-- `errors.Is(err, ErrNotReady)`
abbrev is_not_ready : Option Error → Bool
is_not_ready none = false
is_not_ready (some e) = errors_is e rabbitmq_not_ready

-- `now` is `time.Now().UTC()`.
abbrev pub message :
    (content_type : String) (msg_type : String) (headers : Table Value) (now : ℤ) (body : List ℕ)
    → Publishing
message content_type msg_type headers now body = record {
  headers = headers;
  content_type = content_type;
  delivery_mode = persistent;
  correlation_id = "";
  message_id = "";
  timestamp = now;
  msg_type = msg_type;
  app_id = "";
  body = body;
  expiration = none;
}

module _ (b : Broker) (cfg : Config) where
  -- A panic of the sink is recovered and logged.
  unfoldable pub record_op : String → ℤ → Option Error → Trace → Trace
  record_op op d err t =
      let called = sink op d err ∷ t in
      if cfg.on_operation
      then elim (b.answer t (sink op d err)) [
        | none ↦ called
        | some e ↦ log_error "rabbitmq: metrics sink panicked" ∷ called
      ]
      else t

  -- `elapsed` is what the clock says after the call.
  unfoldable pub observe_publish : String → ℤ → Cmd → Cmd
  unfolding record_op errors_is
  observe_publish op elapsed f t =
      let (err, t') = f t in
      (err, record_op op (if is_not_ready err then pos 0 else elapsed) err t')

  -- `ch` is the component's channel, as it is when the method reads it.
  unfoldable pub publish : Option ℕ → String → String → Publishing → Cmd
  publish none exchange key msg t = (some err_not_ready, t)
  publish (some ch) exchange key msg t =
      if b.channel_closed t ch
      then (some err_not_ready, t)
      else perform b (publish_with_context ch (publish_timeout cfg) exchange key msg)
          (errorf "rabbitmq: publish to %q/%q: %w" (exchange ∷ key ∷ [])) t

  module _ (elapsed now : ℤ) (ch : Option ℕ) (exchange key content_type : String) where
    unfoldable pub publish_plain : List ℕ → Cmd
    unfolding observe_publish publish
    publish_plain body =
        observe_publish "rabbitmq.publish" elapsed
          (publish ch exchange key (message content_type "" [] now body))

    unfoldable pub publish_with_type : String → List ℕ → Cmd
    unfolding observe_publish publish
    publish_with_type msg_type body =
        observe_publish "rabbitmq.publish_with_type" elapsed
          (publish ch exchange key (message content_type msg_type [] now body))

    unfoldable pub publish_with_headers : Table Value → List ℕ → Cmd
    unfolding observe_publish publish
    publish_with_headers headers body =
        observe_publish "rabbitmq.publish_with_headers" elapsed
          (publish ch exchange key (message content_type "" headers now body))
