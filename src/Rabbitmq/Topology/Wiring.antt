-- ===== src/Rabbitmq/Topology/Wiring.antt =====
-- The calls that declare everything which is registered, written out in the order in which they are made.
use samsara_components.Prelude.{ℕ, String, ◌≡◌, refl, List, [], ◌∷◌, Option, none, some, arith}
use samsara_components.Rabbitmq.Float.{Float64}
use samsara_components.Rabbitmq.Retry.{RetryPolicy, retry_queue, dlq}
use samsara_components.Rabbitmq.Amqp.{
  text, exchange_declare, queue_declare, queue_bind, consume, spawn, Trace, Broker,
}
use samsara_components.Rabbitmq.Failure.{Subscription}
use samsara_components.Rabbitmq.Topology.{
  ExchangeDecl, bind_and_consume, declare_exchanges, bind_all,
}

module _ (ch : ℕ) where
  abbrev pub after_exchanges : List ExchangeDecl → Trace → Trace
  after_exchanges [] t = t
  after_exchanges (e ∷ es) t = after_exchanges es (exchange_declare ch e.name e.kind e.durable ∷ t)

  module _ {F : Float64} where
    -- The delay queue, whose messages go back to the queue that they come from, and the dead-letter queue.
    abbrev pub after_companions : Option (RetryPolicy F) → (queue : String) → Trace → Trace
    after_companions none queue t = t
    after_companions (some policy) queue t =
        queue_declare ch (dlq policy queue) none
        ∷ queue_declare ch (retry_queue policy queue) (
            some (
              ("x-dead-letter-exchange", text "") ∷ ("x-dead-letter-routing-key", text queue) ∷ []))
        ∷ t

    -- The queue with its arguments, its binding to the exchange under the routing key, and its consumer.
    abbrev pub after_sub : (ctx : ℕ) → Subscription F → Trace → Trace
    after_sub ctx sub t =
        spawn ctx sub.queue
        ∷ consume ch sub.queue
        ∷ queue_bind ch sub.queue sub.routing_key sub.exchange
        ∷ queue_declare ch sub.queue sub.queue_args
        ∷ after_companions sub.retry sub.queue t

    abbrev pub after_subs : (ctx : ℕ) → List (Subscription F) → Trace → Trace
    after_subs ctx [] t = t
    after_subs ctx (sub ∷ subs) t = after_subs ctx subs (after_sub ctx sub t)

module _ (b : Broker) (ch : ℕ) where
  pub declare_exchanges-wires :
      (es : List ExchangeDecl) (t : Trace)
      → let (err, t') = declare_exchanges b ch es t in err ≡ none → t' ≡ after_exchanges ch es t
  unfolding declare_exchanges
  declare_exchanges-wires [] t h = refl
  declare_exchanges-wires (e ∷ es) t h =
      ground
        (arith, declare_exchanges-wires es (exchange_declare ch e.name e.kind e.durable ∷ t), h)

  module _ {F : Float64} (ctx : ℕ) where
    bind-wires :
        (sub : Subscription F) (t : Trace)
        → let (err, t') = bind_and_consume b ch ctx sub t in
          err ≡ none → t' ≡ after_sub ch ctx sub t
    unfolding bind_and_consume
    bind-wires sub t h = ground (arith, h)

    pub bind_all-wires :
        (subs : List (Subscription F)) (t : Trace)
        → let (err, t') = bind_all b ch ctx subs t in err ≡ none → t' ≡ after_subs ch ctx subs t
    unfolding bind_all
    bind_all-wires [] t h = refl
    bind_all-wires (sub ∷ subs) t h =
        ground (arith, bind-wires sub t, bind_all-wires subs (bind_and_consume b ch ctx sub t).1, h)
