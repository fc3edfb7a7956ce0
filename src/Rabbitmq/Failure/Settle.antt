-- ===== src/Rabbitmq/Failure/Settle.antt =====
-- What `handleFailure` does with a delivery: it settles it once, and never loses the message.
use samsara_components.Prelude.{
  ℕ, suc, String, Bool, true, false, not, ◌&&◌, ◌≡◌, List, [], ◌∷◌, Option, none, some, arith, ℤ,
  pos, ◌+ℤ◌, count, is_some, if◌then◌else◌, Bool-cases, inl, inr,
}
use samsara_components.Go.Errors.{Error, rabbitmq_drop_to_dlx, errors_is}
use samsara_components.Rabbitmq.Config.{Config, publish_timeout}
use samsara_components.Rabbitmq.Float.{Float64}
use samsara_components.Rabbitmq.Retry.{RetryPolicy, retry_queue, dlq, backoff}
use samsara_components.Rabbitmq.Amqp.{
  Publishing, Delivery, Call, ack, nack, publish_with_context, Trace, Broker,
}
use samsara_components.Rabbitmq.Publish.{publish}
use samsara_components.Rabbitmq.Failure.{
  Subscription, retry_count, clone, republish, settle, is_terminal, handle_failure,
}

abbrev pub is_ack : Call → Bool
is_ack (ack tag) = true
is_ack _ = false

-- A negative acknowledgement that puts the message back into its queue.
abbrev pub is_requeue : Call → Bool
is_requeue (nack tag requeue) = requeue
is_requeue _ = false

abbrev pub is_drop : Call → Bool
is_drop (nack tag requeue) = not requeue
is_drop _ = false

abbrev pub is_publish : Call → Bool
is_publish (publish_with_context ch timeout exchange key msg) = true
is_publish _ = false

-- The messages that a trace publishes: exchange, routing key, message.
abbrev pub sent : Trace → List (String × String × Publishing)
sent [] = []
sent (publish_with_context ch timeout exchange key msg ∷ t) = (exchange, key, msg) ∷ sent t
sent (_ ∷ t) = sent t

-- Where the message of a failed delivery goes: the queue, its counter, its delay.
abbrev pub destination : {F : Float64} → RetryPolicy F → String → Delivery → Error → String × ℤ × ℤ
destination policy queue d err =
    if is_terminal policy d err then (dlq policy queue, retry_count d.headers, pos 0) else (
      retry_queue policy queue,
      retry_count d.headers +ℤ pos 1,
      backoff policy (retry_count d.headers +ℤ pos 1),
    )

-- How often the trace settles a delivery: acks, requeues, drops.
abbrev pub settlements : Trace → ℕ × ℕ × ℕ
settlements t = (count is_ack t, count is_requeue t, count is_drop t)

module _ (b : Broker) (cfg : Config) (ch : Option ℕ) where
  -- The component has a live channel, and the broker takes the message.
  unfoldable pub accepts : String → Publishing → Trace → Bool
  accepts key msg t = elim ch [
    | none ↦ false
    | some h ↦
        not (b.channel_closed t h)
        && elim (b.answer t (publish_with_context h (publish_timeout cfg) "" key msg)) [
          | none ↦ true
          | some e ↦ false
        ]
  ]

  settle_lem :
      (d : Delivery) (key : String) (retries delay : ℤ) (t : Trace)
      → settlements (settle b d (republish b cfg ch d "" key retries delay) t) ≡ (
          if accepts key (clone d retries delay) t
          then (suc (count is_ack t), count is_requeue t, count is_drop t)
          else (count is_ack t, suc (count is_requeue t), count is_drop t))
  unfolding settle republish publish accepts
  settle_lem d key retries delay t = ground arith

  -- The channel that a publish goes out on, if there is a live one.
  unfoldable pub live : Trace → Option ℕ
  live t = elim ch [ none ↦ none | some h ↦ if b.channel_closed t h then none else some h ]

  sent_lem :
      (d : Delivery) (key : String) (retries delay : ℤ) (t : Trace)
      → sent (settle b d (republish b cfg ch d "" key retries delay) t)
        ≡ (if is_some (live t) then ("", key, clone d retries delay) ∷ sent t else sent t)
  unfolding settle republish publish live
  sent_lem d key retries delay t = ground arith

  module _ {F : Float64} (sub : Subscription F) (d : Delivery) (err : Error) (t : Trace) where
    -- With a retry policy, let the message be the clone of the delivery for the DLQ, if the error is
    -- terminal, or else for the delay queue, with the counter raised and the backoff as its expiration.
    -- It is published at most once, on a live channel only, and to that queue. The delivery is acked if
    -- and only if the broker takes the message; otherwise it is requeued. It is never dropped.
    pub handle_failure-retry :
        {policy : RetryPolicy F}
        → sub.retry ≡ some policy
        → let (key, retries, delay) = destination policy sub.queue d err in
          let done = handle_failure b cfg ch sub d err t in
          (settlements done ≡ (
            if accepts key (clone d retries delay) t
            then (suc (count is_ack t), count is_requeue t, count is_drop t)
            else (count is_ack t, suc (count is_requeue t), count is_drop t)))
          × (sent done
              ≡ (if is_some (live t) then ("", key, clone d retries delay) ∷ sent t else sent t))
    unfolding handle_failure
    handle_failure-retry {policy} e = elim (Bool-cases (is_terminal policy d err)) [
      | inl p ↦
          rw (e, p)
            (
              settle_lem d (dlq policy sub.queue) n (pos 0) t,
              sent_lem d (dlq policy sub.queue) n (pos 0) t,
            )
      | inr p ↦
          rw (e, p)
            (
              settle_lem d (retry_queue policy sub.queue) n' (backoff policy n') t,
              sent_lem d (retry_queue policy sub.queue) n' (backoff policy n') t,
            )
    ]
      where
        n : ℤ
        n = retry_count d.headers

        n' : ℤ
        n' = n +ℤ pos 1

    -- Without a retry policy the delivery is dropped to the broker's dead-letter exchange if the error
    -- holds ErrDropToDLX among its causes, and requeued otherwise; nothing is published.
    pub handle_failure-legacy :
        sub.retry ≡ none
        → let done = handle_failure b cfg ch sub d err t in
          (settlements done ≡ (
            if errors_is err rabbitmq_drop_to_dlx
            then (count is_ack t, count is_requeue t, suc (count is_drop t))
            else (count is_ack t, suc (count is_requeue t), count is_drop t)))
          × (sent done ≡ sent t)
    unfolding handle_failure
    handle_failure-legacy e = ground arith
