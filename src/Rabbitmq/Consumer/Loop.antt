-- ===== src/Rabbitmq/Consumer/Loop.antt =====
-- What the consumer goroutine does with the events of its life.
use samsara_components.Prelude.{
  ℕ, suc, ◌+◌, String, Bool, true, false, not, ◌&&◌, ◌≡◌, refl, ◌∙◌, ap, List, [], ◌∷◌, Option,
  none, some, arith, count, str_eq, if◌then◌else◌, Option-cases, inl, inr,
}
use samsara_components.Go.Errors.{Error}
use samsara_components.Go.Table.{lookup, lookup-insert}
use samsara_components.Rabbitmq.Float.{Float64}
use samsara_components.Rabbitmq.Amqp.{Delivery, ack, Trace, Broker, attempt}
use samsara_components.Rabbitmq.Failure.{Subscription, handle_failure}
use samsara_components.Rabbitmq.Failure.Settle.{
  is_ack, is_requeue, is_drop, handle_failure-retry, handle_failure-legacy,
}
use samsara_components.Rabbitmq.Component.{Component, mark_consumer_dead}
use samsara_components.Rabbitmq.Consumer.{
  Event, cancelled, closed, delivered, Consumer, closed_reason, on_event, consume_loop,
}

-- How often the trace settles some delivery.
abbrev pub settled : Trace → ℕ
settled t = count is_ack t + count is_requeue t + count is_drop t

-- The deliveries that come before the loop ends.
abbrev pub deliveries : List Event → ℕ
deliveries [] = 0
deliveries (cancelled ∷ es) = 0
deliveries (closed ctx_done ∷ es) = 0
deliveries (delivered d result ch ∷ es) = suc (deliveries es)

-- The loop ends at a closed delivery channel, with its context not done.
abbrev pub dies : List Event → Bool
dies [] = false
dies (cancelled ∷ es) = false
dies (closed ctx_done ∷ es) = not ctx_done
dies (delivered d result ch ∷ es) = dies es

abbrev pub goes_on : List Event → Bool
goes_on [] = true
goes_on (cancelled ∷ es) = false
goes_on (closed ctx_done ∷ es) = false
goes_on (delivered d result ch ∷ es) = goes_on es

module _ {F : Float64} (b : Broker) (sub : Subscription F) where
  failure_settles :
      (c : Component F) (ch : Option ℕ) (d : Delivery) (err : Error) (t : Trace)
      → settled (handle_failure b c.cfg ch sub d err t) ≡ suc (settled t)
  failure_settles c ch d err t = elim (Option-cases sub.retry) [
    | inl e ↦ ground (arith, handle_failure-legacy b c.cfg ch sub d err t e)
    | inr (policy, e) ↦
        ground (arith, handle_failure-retry b c.cfg ch sub d err t {policy = policy} e)
  ]

  stopped_lem : (es : List Event) (s : Consumer F) → s.running ≡ false → consume_loop b sub es s ≡ s
  unfolding consume_loop
  stopped_lem [] s h = refl
  stopped_lem (e ∷ es) s h = rw h refl

  step_lem :
      (e : Event) (es : List Event) (s : Consumer F)
      → s.running ≡ true
      → consume_loop b sub (e ∷ es) s ≡ consume_loop b sub es (on_event b sub e s)
  unfolding consume_loop
  step_lem e es s h = ap (λ r. if r then consume_loop b sub es (on_event b sub e s) else s) h

  last_lem :
      (e : Event) (es : List Event) (s : Consumer F)
      → s.running ≡ true
      → (on_event b sub e s).running ≡ false
      → consume_loop b sub (e ∷ es) s ≡ on_event b sub e s
  last_lem e es s h k = step_lem e es s h ∙ stopped_lem es (on_event b sub e s) k

  ack_settles :
      (d : Delivery) (t : Trace)
      → settled (attempt b (ack d.tag) "rabbitmq: ack failed" t) ≡ suc (settled t)
  ack_settles d t = ground arith

  marked_lem :
      (c : Component F) (queue : String)
      → lookup queue (mark_consumer_dead sub.queue closed_reason c).dead_consumers
        ≡ (if str_eq queue sub.queue then some closed_reason else lookup queue c.dead_consumers)
  unfolding mark_consumer_dead
  marked_lem c queue = lookup-insert sub.queue queue closed_reason c.dead_consumers

  -- A running loop settles each delivery that it gets exactly once, before it takes the next one. It
  -- still runs if and only if neither cancellation nor a closed channel has come; and it has put its
  -- queue on record as dead, leaving all other entries, if and only if the channel closed under a
  -- context that was not done.
  pub consume_loop_lem :
      (es : List Event) (s : Consumer F)
      → s.running ≡ true
      → let s' = consume_loop b sub es s in
        (settled s'.trace ≡ settled s.trace + deliveries es)
        × (s'.running ≡ goes_on es)
        × ((queue : String)
            → lookup queue s'.component.dead_consumers ≡ (
                if dies es && str_eq queue sub.queue
                then some closed_reason
                else lookup queue s.component.dead_consumers))
  unfolding consume_loop
  consume_loop_lem [] s h = (omega arith, h, λ queue. refl)
  consume_loop_lem (cancelled ∷ es) s h =
      rw (last_lem cancelled es s h refl) (omega arith, refl, λ queue. refl)
  consume_loop_lem (closed true ∷ es) s h =
      rw (last_lem (closed true) es s h refl) (omega arith, refl, λ queue. refl)
  consume_loop_lem (closed false ∷ es) s h =
      rw (last_lem (closed false) es s h refl)
        (omega arith, refl, λ queue. marked_lem s.component queue)
  consume_loop_lem (delivered d none ch ∷ es) s h =
      let (n, r, l) = consume_loop_lem es (on_event b sub (delivered d none ch) s) h in
      rw (step_lem (delivered d none ch) es s h) (omega (arith, n, ack_settles d s.trace), r, l)
  consume_loop_lem (delivered d (some err) ch ∷ es) s h =
      let (n, r, l) = consume_loop_lem es (on_event b sub (delivered d (some err) ch) s) h in
      rw (step_lem (delivered d (some err) ch) es s h)
        (omega (arith, n, failure_settles s.component ch d err s.trace), r, l)
