-- ===== src/Rabbitmq/Failure.antt =====
-- The failure policy of rabbitmq/messaging.go: the retry counter, republishing, and what happens to a
-- delivery whose handler returned an error.
pub mod Counter
pub mod Settle
use samsara_components.Prelude.{
  ℕ, String, Bool, true, false, not, ◌||◌, ◌/◌, ◌≡◌, List, [], ◌∷◌, Option, none, some, ℤ, pos,
  negsuc, ◌+ℤ◌, leb_ℤ, is_pos, int32, str_eq, if◌then◌else◌,
}
use samsara_components.Go.Errors.{Error, rabbitmq_drop_to_dlx, errors_is}
use samsara_components.Go.Table.{Table, lookup, insert, maps_copy}
use samsara_components.Rabbitmq.Config.{Config}
use samsara_components.Rabbitmq.Float.{Float64}
use samsara_components.Rabbitmq.Retry.{RetryPolicy, max_retries, retry_queue, dlq, backoff}
use samsara_components.Rabbitmq.Amqp.{
  Value, i32, i64, int, text, other, persistent, Publishing, Delivery, Call, ack, nack, Trace,
  Broker, Cmd, attempt,
}
use samsara_components.Rabbitmq.Publish.{publish}

-- The handler is the caller's; it stands where it is called.
pub record Subscription (F : Float64) : Type 0 where
  pub routing_key : String
  pub exchange : String
  pub queue : String
  pub queue_args : Option (Table Value)
  pub retry : Option (RetryPolicy F)

abbrev pub retry_header : String
retry_header = "x-retry-count"

abbrev pub count_of : Option Value → ℤ
count_of none = pos 0
count_of (some (i32 n)) = n
count_of (some (i64 n)) = n
count_of (some (int n)) = n
count_of (some (text s)) = pos 0
count_of (some (other n)) = pos 0

unfoldable pub retry_count : Table Value → ℤ
retry_count headers = count_of (lookup retry_header headers)

-- `d.Milliseconds()` for a positive duration.
abbrev pub milliseconds : ℤ → ℤ
milliseconds (pos n) = pos (n / 1_000_000)
milliseconds (negsuc n) = pos 0

unfoldable pub stamp : Table Value → ℤ → Table Value
stamp headers retries = insert retry_header (i32 (int32 retries)) (maps_copy [] headers)

unfoldable pub clone : Delivery → ℤ → ℤ → Publishing
unfolding stamp
clone d retries expiration = record {
  headers = stamp d.headers retries;
  content_type = d.content_type;
  delivery_mode = persistent;
  correlation_id = d.correlation_id;
  message_id = d.message_id;
  timestamp = d.timestamp;
  msg_type = d.msg_type;
  app_id = d.app_id;
  body = d.body;
  expiration = if is_pos expiration then some (milliseconds expiration) else none;
}

-- `drop || attempt >= policy.maxRetries()`
unfoldable pub is_terminal : {F : Float64} → RetryPolicy F → Delivery → Error → Bool
unfolding errors_is
is_terminal policy d err =
    errors_is err rabbitmq_drop_to_dlx || leb_ℤ (max_retries policy) (retry_count d.headers)

module _ (b : Broker) where
  -- `if err := republish(…); err != nil { nack, return }`, then the ack of the original.
  unfoldable pub settle : Delivery → Cmd → Trace → Trace
  settle d move t =
      let (err, t') = move t in
      elim err [
        | none ↦ attempt b (ack d.tag) "rabbitmq: ack after republish failed" t'
        | some e ↦ attempt b (nack d.tag true) "rabbitmq: nack failed" t'
      ]

module _ (b : Broker) (cfg : Config) (ch : Option ℕ) where
  unfoldable pub republish : Delivery → String → String → ℤ → ℤ → Cmd
  unfolding publish clone
  republish d exchange key retries expiration =
      publish b cfg ch exchange key (clone d retries expiration)

  module _ {F : Float64} (queue : String) (policy : RetryPolicy F) (d : Delivery) where
    -- The message goes to the DLQ with its counter as it is.
    unfoldable pub dead_letter : Trace → Trace
    unfolding settle republish dlq
    dead_letter = settle b d (republish d "" (dlq policy queue) (retry_count d.headers) (pos 0))

    -- The message goes to the delay queue with its counter one higher.
    unfoldable pub schedule_retry : Trace → Trace
    unfolding settle republish retry_queue
    schedule_retry =
        let next = retry_count d.headers +ℤ pos 1 in
        settle b d (republish d "" (retry_queue policy queue) next (backoff policy next))

  unfoldable pub handle_failure : {F : Float64} → Subscription F → Delivery → Error → Trace → Trace
  unfolding dead_letter schedule_retry is_terminal
  handle_failure sub d err t = elim sub.retry [
    | none ↦
        attempt b (nack d.tag (not (errors_is err rabbitmq_drop_to_dlx))) "rabbitmq: nack failed" t
    | some policy ↦
        if is_terminal policy d err
        then dead_letter sub.queue policy d t
        else schedule_retry sub.queue policy d t
  ]
