-- ===== src/Rabbitmq/Component/Connect.antt =====
-- What Start, Stop and Health of the rabbitmq component make of the component.
use samsara_components.Prelude.{
  ℕ, String, true, false, ◌≡◌, ◌↔◌, List, [], ◌∷◌, none, some, arith, is_some,
}
use samsara_components.Go.Errors.{Error}
use samsara_components.Go.Table.{insert-nonempty}
use samsara_components.Rabbitmq.Float.{Float64}
use samsara_components.Rabbitmq.Amqp.{Call, close_channel, close_conn, Trace, Broker}
use samsara_components.Rabbitmq.Failure.{Subscription}
use samsara_components.Rabbitmq.Topology.{declare_exchanges}
use samsara_components.Rabbitmq.Topology.Plan.{
  spawned, declared, push_all, declare_exchanges_lem, bind_all_lem,
}
use samsara_components.Rabbitmq.Topology.Wiring.{
  after_exchanges, after_subs, declare_exchanges-wires, bind_all-wires,
}
use samsara_components.Rabbitmq.Component.{
  Component, failed, waiting, is_gone, start_begin, start_topology, start_finish, stop_swap,
  mark_consumer_dead, health,
}

-- The last two calls of a trace, the last one first.
abbrev pub last_two : Trace → List Call
last_two [] = []
last_two (c ∷ []) = c ∷ []
last_two (c ∷ c' ∷ t) = c ∷ c' ∷ []

module _ {F : Float64} (b : Broker) (conn ch ctx : ℕ) (c : Component F) (t : Trace) where
  -- A Start that gets to its call of ready has installed its handles, has no dead consumer on record,
  -- and has declared every registered exchange and started a consumer for every subscription, each
  -- once and in order, under the run context that it was given, after its queues and its binding.
  pub start_topology-waiting :
      let (p, c', t') = start_topology b conn ch ctx c t in
      p ≡ waiting
      → (c'.conn ≡ some conn)
        × (c'.ch ≡ some ch)
        × (c'.dead_consumers ≡ [])
        × (declared t' ≡ push_all (λ e. e) c.exchanges (declared t))
        × (spawned t' ≡ push_all (λ (s : Subscription F). (ctx, s.queue)) c.subs (spawned t))
        × (t' ≡ after_subs ch ctx c.subs (after_exchanges ch c.exchanges t))
  unfolding start_topology
  start_topology-waiting h = ground (
    arith,
    declare_exchanges_lem b ch c.exchanges t,
    bind_all_lem b ch ctx c.subs (declare_exchanges b ch c.exchanges t).1,
    declare_exchanges-wires b ch c.exchanges t,
    bind_all-wires b ch ctx c.subs (declare_exchanges b ch c.exchanges t).1,
  )

  -- A Start that fails after the dial ends by closing the channel and then the connection.
  pub start_topology-failed :
      let (p, c', t') = start_topology b conn ch ctx c t in
      (e : Error) → p ≡ failed e → last_two t' ≡ close_conn conn ∷ close_channel ch ∷ []
  unfolding start_topology
  start_topology-failed e h = ground arith

-- Health reports no error if and only if no consumer is on record as dead and both handles are set and
-- open.
pub health_iff :
    {F : Float64} (b : Broker) (t : Trace) (c : Component F)
    → (health b t c ≡ none) ↔ (
        (c.dead_consumers ≡ [])
        × (is_gone (b.conn_closed t) c.conn ≡ false)
        × (is_gone (b.channel_closed t) c.ch ≡ false))
unfolding health
health_iff b t c = (λ h. ground arith, λ h. ground arith)

-- A consumer that dies makes Health fail until the next Start that declares its exchanges.
pub mark_consumer_dead-health :
    {F : Float64} (b : Broker) (t : Trace) (c : Component F) (queue reason : String)
    → is_some (health b t (mark_consumer_dead queue reason c)) ≡ true
unfolding health mark_consumer_dead
mark_consumer_dead-health b t c queue reason =
    let (e, r, q) = insert-nonempty queue reason c.dead_consumers in ground (arith, q)

-- If Stop runs between the two critical sections of a Start, and that Start gets to ready, then the
-- component still holds the connection and the channel once Start has returned.
pub stop_during_dial :
    {F : Float64} (b : Broker) (conn ch ctx stop_ch closed : ℕ) (c : Component F) (t : Trace)
    → let stopped = stop_swap closed (start_begin stop_ch ctx c) in
      let (p, c', t') = start_topology b conn ch ctx stopped t in
      p ≡ waiting → ((start_finish c').conn ≡ some conn) × ((start_finish c').ch ≡ some ch)
unfolding start_topology start_begin stop_swap start_finish
stop_during_dial b conn ch ctx stop_ch closed c t h = ground arith
