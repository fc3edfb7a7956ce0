-- ===== src/Rabbitmq/Topology.antt =====
-- Queues, bindings and consumers of rabbitmq/messaging.go: `buildQueueArgs`, `declareRetryTopology`,
-- `bindAndConsume`, and the two loops of `Start` that declare and bind all that was registered.
pub mod Plan
pub mod Wiring
use samsara_components.Prelude.{
  ℕ, String, Bool, true, false, ◌&&◌, ◌≡◌, List, [], ◌∷◌, Option, none, some, str_eq, if◌then◌else◌,
}
use samsara_components.Go.Errors.{Error, errorf}
use samsara_components.Go.Table.{Table, insert, maps_copy}
use samsara_components.Rabbitmq.Float.{Float64}
use samsara_components.Rabbitmq.Retry.{RetryPolicy, retry_queue, dlq}
use samsara_components.Rabbitmq.Amqp.{
  Value, text, Call, exchange_declare, queue_declare, queue_bind, consume, spawn, Trace, Broker,
  Cmd, succeed, ◌then_do◌, perform,
}
use samsara_components.Rabbitmq.Failure.{Subscription}

pub record SubscribeOptions (F : Float64) : Type 0 where
  pub queue_args : Table Value
  pub queue_type : String
  pub retry : Option (RetryPolicy F)

pub record ExchangeDecl : Type 0 where
  pub name : String
  pub kind : String
  pub durable : Bool

abbrev is_empty : Table Value → Bool
is_empty [] = true
is_empty (e ∷ m) = false

module _ {F : Float64} where
  unfoldable pub build_queue_args : SubscribeOptions F → Option (Table Value)
  build_queue_args opts =
      let args = maps_copy [] opts.queue_args in
      if is_empty opts.queue_args && str_eq opts.queue_type ""
      then none
      else some (
          if str_eq opts.queue_type ""
          then args
          else insert "x-queue-type" (text opts.queue_type) args)

module _ (b : Broker) (ch : ℕ) where
  unfoldable pub declare_retry_topology : {F : Float64} → RetryPolicy F → String → Cmd
  unfolding retry_queue dlq
  declare_retry_topology policy queue =
      let back =
        ("x-dead-letter-exchange", text "") ∷ ("x-dead-letter-routing-key", text queue) ∷ [] in
      perform b (queue_declare ch (retry_queue policy queue) (some back))
        (errorf "rabbitmq: declare retry queue %q: %w" (retry_queue policy queue ∷ []))
      then_do perform b (queue_declare ch (dlq policy queue) none)
          (errorf "rabbitmq: declare dead-letter queue %q: %w" (dlq policy queue ∷ []))

  -- `if sub.retry != nil { … }`
  abbrev pub declare_companions : {F : Float64} → Option (RetryPolicy F) → String → Cmd
  declare_companions none queue = succeed
  declare_companions (some policy) queue = declare_retry_topology policy queue

  unfoldable pub bind_and_consume : {F : Float64} → ℕ → Subscription F → Cmd
  unfolding declare_retry_topology
  bind_and_consume ctx sub =
      declare_companions sub.retry sub.queue
      then_do perform b (queue_declare ch sub.queue sub.queue_args)
          (errorf "rabbitmq: declare queue %q: %w" (sub.queue ∷ []))
      then_do perform b (queue_bind ch sub.queue sub.routing_key sub.exchange) (
          errorf "rabbitmq: bind queue %q (key %q) to exchange %q: %w"
            (sub.queue ∷ sub.routing_key ∷ sub.exchange ∷ []))
      then_do perform b (consume ch sub.queue) (errorf "rabbitmq: consume %q: %w" (sub.queue ∷ []))
      then_do λ t. (none, spawn ctx sub.queue ∷ t)

  -- `for _, e := range exchanges`
  unfoldable pub declare_exchanges : List ExchangeDecl → Cmd
  declare_exchanges [] = succeed
  declare_exchanges (e ∷ es) =
      perform b (exchange_declare ch e.name e.kind e.durable)
        (errorf "rabbitmq: declare exchange %q: %w" (e.name ∷ []))
      then_do declare_exchanges es

  -- `for _, sub := range subs`
  unfoldable pub bind_all : {F : Float64} → ℕ → List (Subscription F) → Cmd
  unfolding bind_and_consume
  bind_all ctx [] = succeed
  bind_all ctx (sub ∷ subs) =
      (λ t.
        let (err, t') = bind_and_consume ctx sub t in
        elim err [
          | none ↦ (none, t')
          | some e ↦ (
            some (
                errorf "rabbitmq: bind subscription (exchange %q, queue %q): %w"
                  (sub.exchange ∷ sub.queue ∷ []) e),
            t',
          )
        ])
      then_do bind_all ctx subs
