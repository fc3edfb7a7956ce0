-- ===== src/Rabbitmq/Component/History.antt =====
-- Histories of one component of package rabbitmq, call by call: registrations, runs of Start, and Stop.
pub mod Registered
pub mod Closing
use samsara_components.Prelude.{ℕ, String, List, [], ◌∷◌, Option, none, some, ◌⊎◌}
use samsara_components.Go.Errors.{Error}
use samsara_components.Rabbitmq.Float.{Float64}
use samsara_components.Rabbitmq.Amqp.{cancel, Trace, Broker}
use samsara_components.Rabbitmq.Failure.{Subscription}
use samsara_components.Rabbitmq.Topology.{SubscribeOptions, ExchangeDecl}
use samsara_components.Rabbitmq.Component.{
  Component, subscription, declare_exchange, subscribe_with_options, mark_consumer_dead,
  start_finish,
}
use samsara_components.Rabbitmq.Component.Dial.{Winner}
use samsara_components.Rabbitmq.Component.Start.{start}
use samsara_components.Rabbitmq.Component.Stop.{stop}

-- DeclareExchange; SubscribeWithOptions; Start up to ready or its early return, with what it makes and how
-- the dial and the opening of the channel fare; the return of a Start that waited; Stop; and the death
-- of a consumer.
pub data ComponentCall (F : Float64) : Type 0 where
  declares : ExchangeDecl → ComponentCall F
  subscribes : (exchange queue routing_key : String) → SubscribeOptions F → ComponentCall F
  starts :
      (stop_ch ctx : ℕ)
      → Winner
      → (dial : Error ⊎ ℕ) → (channel : (conn : ℕ) → Error ⊎ ℕ) → ComponentCall F
  leaves : (ctx : ℕ) → ComponentCall F
  stops : (closed : ℕ) → ComponentCall F
  dies : (queue reason : String) → ComponentCall F

abbrev pub without_error : {F : Float64} → Option Error × Component F × Trace → Component F × Trace
without_error (err, c, t) = (c, t)

module _ {F : Float64} (b : Broker) (amqp_code : Error → Option ℕ) (timeout : String) where
  unfoldable pub on_call : ComponentCall F → Component F × Trace → Component F × Trace
  unfolding declare_exchange subscribe_with_options start start_finish stop mark_consumer_dead
  on_call (declares e) (c, t) = without_error (declare_exchange b e c t)
  on_call (subscribes exchange queue key opts) (c, t) =
      without_error (subscribe_with_options b exchange queue key opts c t)
  on_call (starts stop_ch ctx w dial channel) (c, t) =
      let s = start b timeout channel ctx stop_ch w dial c t in (s.component, s.trace)
  on_call (leaves ctx) (c, t) = (start_finish c, cancel ctx ∷ t)
  on_call (stops closed) (c, t) = stop b amqp_code closed c t
  on_call (dies queue reason) (c, t) = (mark_consumer_dead queue reason c, t)

  unfoldable pub calls : List (ComponentCall F) → Component F × Trace → Component F × Trace
  unfolding on_call
  calls [] w = w
  calls (e ∷ es) w = calls es (on_call e w)
