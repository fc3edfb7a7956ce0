-- ===== src/Rabbitmq/Consumer.antt =====
-- The consumer goroutine that `bindAndConsume` of rabbitmq/messaging.go starts.
pub mod Loop
use samsara_components.Prelude.{
  ℕ, String, Bool, true, false, List, [], ◌∷◌, Option, none, some, if◌then◌else◌,
}
use samsara_components.Go.Errors.{Error}
use samsara_components.Rabbitmq.Config.{Config}
use samsara_components.Rabbitmq.Float.{Float64}
use samsara_components.Rabbitmq.Amqp.{Delivery, ack, Trace, Broker, attempt}
use samsara_components.Rabbitmq.Failure.{Subscription, handle_failure}
use samsara_components.Rabbitmq.Component.{Component, mark_consumer_dead}

-- What a round of the loop's `select` meets: the context is done; the delivery channel is closed, with
-- the context done or not at the second look; or a delivery, with what the handler returns for it and
-- the component's channel at that time.
pub data Event : Type 0 where
  cancelled : Event
  closed : (ctx_done : Bool) → Event
  delivered : Delivery → (result : Option Error) → (ch : Option ℕ) → Event

pub record Consumer (F : Float64) : Type 0 where
  pub component : Component F
  pub trace : Trace
  pub running : Bool

abbrev pub closed_reason : String
closed_reason = "delivery channel closed by broker"

module _ {F : Float64} (b : Broker) (sub : Subscription F) where
  unfoldable pub on_event : Event → Consumer F → Consumer F
  unfolding handle_failure mark_consumer_dead
  on_event cancelled s = record s { running = false }
  on_event (closed true) s = record s { running = false }
  on_event (closed false) s = record s {
    running = false;
    component = mark_consumer_dead sub.queue closed_reason s.component;
  }
  on_event (delivered d none ch) s = record s {
    trace = attempt b (ack d.tag) "rabbitmq: ack failed" s.trace;
  }
  on_event (delivered d (some err) ch) s = record s {
    trace = handle_failure b s.component.cfg ch sub d err s.trace;
  }

  -- The loop over the rounds to come; it meets none after its return.
  unfoldable pub consume_loop : List Event → Consumer F → Consumer F
  unfolding on_event
  consume_loop [] s = s
  consume_loop (e ∷ es) s =
      let next = consume_loop es (on_event e s) in if s.running then next else s
