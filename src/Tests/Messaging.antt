-- ===== src/Tests/Messaging.antt =====
-- Inputs for package rabbitmq.
use samsara_components.Prelude.{
  true, false, ◌≡◌, refl, [], ◌∷◌, none, some, arith, pos, negsuc, ◌≤ℤ◌, int32, ◌+ℤ◌, ◌<ℤ◌, min_ℤ,
  ◌^◌, ◌*◌,
}
use samsara_components.Go.Errors.{foreign}
use samsara_components.Go.Table.{lookup, insert, maps_copy}
use samsara_components.Rabbitmq.Config.{Config, connect_timeout, publish_timeout, timeouts_pos}
use samsara_components.Rabbitmq.Float.{whole, whole_laws}
use samsara_components.Rabbitmq.Retry.{
  RetryPolicy, max_retries, retry_queue, backoff, base_of, cap_of, multiplier_of,
}
use samsara_components.Rabbitmq.Retry.Backoff.{backoff_bounds, backoff_doubles}
use samsara_components.Rabbitmq.Amqp.{i32, text, Delivery, Broker}
use samsara_components.Rabbitmq.Failure.{
  Subscription, retry_count, stamp, clone, is_terminal, handle_failure,
}
use samsara_components.Rabbitmq.Failure.Counter.{Retried, Retried-counter, retry_count-stamp}
use samsara_components.Rabbitmq.Failure.Settle.{settlements, accepts, handle_failure-retry}
use samsara_components.Rabbitmq.Component.{Component}
use samsara_components.Rabbitmq.Consumer.{closed, delivered, Consumer, consume_loop}
use samsara_components.Rabbitmq.Consumer.Loop.{consume_loop_lem, settled}

abbrev pub config : Config
config = record {
  host = "";
  port = pos 0;
  vhost = "";
  user = "";
  pass = "secret";
  uri = "";
  connect_timeout = pos 0;
  publish_timeout = negsuc 3;
  on_operation = true;
}

-- A broker that takes every call, and one that refuses the third.
abbrev pub willing : Broker
willing = record {
  answer = λ t c. none;
  channel_closed = λ t ch. false;
  conn_closed = λ t conn. false;
}

abbrev pub refusing : Broker
refusing = record {
  answer = λ t c. some (foreign 7);
  channel_closed = λ t ch. false;
  conn_closed = λ t conn. false;
}

-- Twice a tenth of a second, up to half a second.
abbrev policy : RetryPolicy whole
policy = record {
  max_retries = pos 2;
  backoff = pos 100_000_000;
  backoff_multiplier = 0;
  max_backoff = pos 500_000_000;
  retry_queue = "";
  dlq = "lost";
}

abbrev orders : Subscription whole
orders = record {
  routing_key = "orders";
  exchange = "shop";
  queue = "orders";
  queue_args = none;
  retry = some policy;
}

abbrev plain_orders : Subscription whole
plain_orders = record orders { retry = none }

abbrev fresh : Delivery
fresh = record {
  tag = 1;
  headers = ("x-trace", text "abc") ∷ [];
  content_type = "text/plain";
  correlation_id = "c";
  message_id = "m";
  timestamp = pos 5;
  msg_type = "";
  app_id = "";
  body = 104 ∷ 105 ∷ [];
}

abbrev retried_once : Delivery
retried_once = record fresh { tag = 2; headers = ("x-retry-count", i32 (pos 1)) ∷ [] }

abbrev pub component : Component whole
component = record {
  cfg = config;
  name = "events";
  conn = none;
  ch = none;
  stop_ch = 0;
  run_ctx = none;
  exchanges = record { name = "shop"; kind = "topic"; durable = true } ∷ [];
  subs = orders ∷ [];
  dead_consumers = [];
}

-- The defaults of the source's own tests.
default_backoff :
    backoff (record policy { backoff = pos 0; max_backoff = pos 0 }) (pos 2) ≡ pos 2_000_000_000
unfolding backoff base_of cap_of multiplier_of
default_backoff = refl

default_dlq : retry_queue policy "orders" ≡ "orders.retry"
unfolding retry_queue
default_dlq = refl

timeouts_pos_example : (pos 0 <ℤ connect_timeout config) × (pos 0 <ℤ publish_timeout config)
timeouts_pos_example = timeouts_pos config

backoff_bounds_example :
    (min_ℤ (base_of policy) (cap_of policy) ≤ℤ backoff policy (pos 9))
    × (backoff policy (pos 9) ≤ℤ cap_of policy)
unfolding base_of cap_of
backoff_bounds_example =
    backoff_bounds whole_laws policy (λ h. cc) (omega arith) (pos 9) (omega arith)

backoff_doubles_example :
    backoff policy (pos 4) ≡ min_ℤ (pos (100_000_000 * 2 ^ 3)) (pos 500_000_000)
unfolding base_of cap_of multiplier_of
backoff_doubles_example =
    backoff_doubles whole_laws policy 100_000_000 500_000_000 refl refl refl (omega arith)
      (omega arith) 3

retry_count-stamp_example : retry_count (stamp fresh.headers (pos 1)) ≡ pos 1
unfolding int32
retry_count-stamp_example = (retry_count-stamp fresh.headers (pos 1)).0

-- A message that has been retried once, of the two times that the policy allows.
retried : Retried policy 1 retried_once
unfolding is_terminal max_retries retry_count clone stamp int32 lookup ◌+ℤ◌ insert maps_copy
retried = Retried.again {d = fresh} (foreign 3) (pos 0) (Retried.first {d = fresh} refl) refl refl

two_retries : max_retries policy ≡ pos 2
unfolding max_retries
two_retries = refl

Retried-counter_example : retry_count retried_once.headers ≡ pos 1
Retried-counter_example = (Retried-counter policy 2 two_retries (omega arith) retried).1

handle_failure-retry_example :
    settlements (handle_failure willing config (some 9) orders fresh (foreign 3) []) ≡ (1, 0, 0)
unfolding accepts
handle_failure-retry_example =
    (handle_failure-retry willing config (some 9) orders fresh (foreign 3) [] {policy = policy}
      refl).0

abbrev consumer : Consumer whole
consumer = record { component = component; trace = []; running = true }

consume_loop_lem_example :
    settled
      (consume_loop willing orders
        (delivered fresh none none
          ∷ delivered retried_once (some (foreign 3)) none
          ∷ closed false
          ∷ delivered fresh none none
          ∷ [])
        consumer).trace
    ≡ 2
consume_loop_lem_example =
    (consume_loop_lem willing orders
      (delivered fresh none none
        ∷ delivered retried_once (some (foreign 3)) none
        ∷ closed false
        ∷ delivered fresh none none
        ∷ [])
      consumer refl).0
