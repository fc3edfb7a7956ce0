-- ===== src/Rabbitmq/Component.antt =====
-- The component of rabbitmq/rabbitmq.go: its state, New, Start between its blocking points, Stop, Health,
-- and the registrations of rabbitmq/messaging.go.
pub mod Connect
pub mod Dial
pub mod Start
pub mod Stop
pub mod History
use samsara_components.Prelude.{
  ℕ, String, Bool, true, false, ◌≡◌, List, [], ◌∷◌, ◌++◌, Option, none, some, if◌then◌else◌,
}
use samsara_components.Go.Errors.{Error, newf, errorf}
use samsara_components.Go.Options.{apply_all}
use samsara_components.Go.Table.{Table, insert}
use samsara_components.Rabbitmq.Config.{Config}
use samsara_components.Rabbitmq.Float.{Float64}
use samsara_components.Rabbitmq.Amqp.{
  Call, exchange_declare, close_channel, close_conn, cancel, Trace, Broker, Cmd, perform, ignore,
}
use samsara_components.Rabbitmq.Failure.{Subscription}
use samsara_components.Rabbitmq.Topology.{
  SubscribeOptions, ExchangeDecl, build_queue_args, bind_and_consume, declare_exchanges, bind_all,
}

-- `stop_ch`, `conn`, `ch` and `run_ctx` are handles; a run context comes with its cancel function.
pub record Component (F : Float64) : Type 0 where
  pub cfg : Config
  pub name : String
  pub conn : Option ℕ
  pub ch : Option ℕ
  pub stop_ch : ℕ
  pub run_ctx : Option ℕ
  pub exchanges : List ExchangeDecl
  pub subs : List (Subscription F)
  pub dead_consumers : Table String

-- How Start goes on after the dial: it returns an error, or calls ready and waits.
pub data Progress : Type 0 where
  failed : Error → Progress
  waiting : Progress

-- A handle that is nil or closed.
abbrev pub is_gone : (ℕ → Bool) → Option ℕ → Bool
is_gone closed none = true
is_gone closed (some h) = closed h

module _ {F : Float64} where
  unfoldable pub with_name : String → Component F → Component F
  with_name name c = record c { name = name }

  -- `stop_ch` is the channel that it makes.
  unfoldable pub new : (stop_ch : ℕ) → Config → List (Component F → Component F) → Component F
  unfolding apply_all
  new stop_ch cfg opts = apply_all opts (record {
    cfg = cfg;
    name = "rabbitmq";
    conn = none;
    ch = none;
    stop_ch = stop_ch;
    run_ctx = none;
    exchanges = [];
    subs = [];
    dead_consumers = [];
  })

  -- The first critical section of Start, which makes a stop channel and a run context.
  unfoldable pub start_begin : ℕ → ℕ → Component F → Component F
  start_begin stop_ch ctx c = record c { stop_ch = stop_ch; run_ctx = some ctx }

  -- The second, once the dial and the channel have succeeded.
  unfoldable pub start_install : ℕ → ℕ → Component F → Component F
  start_install conn ch c = record c { conn = some conn; ch = some ch }

  -- From the opened channel to the call of ready, for the run context `ctx`.
  unfoldable pub start_topology :
      Broker → (conn ch ctx : ℕ) → Component F → Trace → Progress × Component F × Trace
  unfolding declare_exchanges bind_all start_install
  start_topology b conn ch ctx c t =
      let c₁ = start_install conn ch c in
      let (err, t₁) = declare_exchanges b ch c₁.exchanges t in
      elim err [
        | some e ↦ (failed e, c₁, close_conn conn ∷ close_channel ch ∷ t₁)
        | none ↦
            let c₂ = record c₁ { dead_consumers = [] } in
            let (err', t₂) = bind_all b ch ctx c₂.subs t₁ in
            elim err' [
              | some e ↦ (
                failed e,
                record c₂ { conn = none; ch = none; run_ctx = none },
                close_conn conn ∷ close_channel ch ∷ cancel ctx ∷ t₂,
              )
              | none ↦ (waiting, c₂, t₂)
            ]
      ]

  -- The last critical section of Start.
  unfoldable pub start_finish : Component F → Component F
  start_finish c = record c { run_ctx = none }

  -- The critical section of Stop; `closed` is the channel that it makes and closes.
  unfoldable pub stop_swap : ℕ → Component F → Component F
  stop_swap closed c = record c { stop_ch = closed; conn = none; ch = none }

  unfoldable pub mark_consumer_dead : String → String → Component F → Component F
  mark_consumer_dead queue reason c = record c {
    dead_consumers = insert queue reason c.dead_consumers;
  }

  unfoldable pub health : Broker → Trace → Component F → Option Error
  health b t c = elim c.dead_consumers [
    | (queue, reason) ∷ _ ↦
        some (newf "rabbitmq: consumer for queue %q is dead: %s" (queue ∷ reason ∷ []))
    | [] ↦
        if is_gone (b.conn_closed t) c.conn
        then some (newf "rabbitmq: connection is closed" [])
        else if is_gone (b.channel_closed t) c.ch
        then some (newf "rabbitmq: channel is closed" [])
        else none
  ]

  unfoldable pub declare_exchange :
      Broker → ExchangeDecl → Component F → Trace → Option Error × Component F × Trace
  declare_exchange b e c t =
      let c' = record c { exchanges = c.exchanges ++ e ∷ [] } in
      elim c.ch [
        | none ↦ (none, c', t)
        | some ch ↦
            if b.channel_closed t ch
            then (none, c', t)
            else let (err, t') =
                perform b (exchange_declare ch e.name e.kind e.durable)
                  (errorf "rabbitmq: declare exchange %q: %w" (e.name ∷ [])) t in
              (err, c', t')
      ]

  abbrev pub subscription :
      (exchange queue routing_key : String) → SubscribeOptions F → Subscription F
  subscription exchange queue routing_key opts = record {
    routing_key = routing_key;
    exchange = exchange;
    queue = queue;
    queue_args = build_queue_args opts;
    retry = opts.retry;
  }

  unfoldable pub subscribe_with_options :
      Broker
      → (exchange queue routing_key : String) → SubscribeOptions F
      → Component F
      → Trace
      → Option Error × Component F × Trace
  unfolding bind_and_consume build_queue_args
  subscribe_with_options b exchange queue routing_key opts c t =
      let sub = subscription exchange queue routing_key opts in
      let c' = record c { subs = c.subs ++ sub ∷ [] } in
      elim c.ch [
        | none ↦ (none, c', t)
        | some ch ↦ if b.channel_closed t ch then (none, c', t) else elim c.run_ctx [
          | none ↦ (none, c', t)
          | some ctx ↦ let (err, t') = bind_and_consume b ch ctx sub t in (err, c', t')
        ]
      ]

  -- With the zero SubscribeOptions.
  unfoldable pub subscribe_with_key :
      Broker
      → (exchange queue routing_key : String) → Component F
      → Trace
      → Option Error × Component F × Trace
  unfolding subscribe_with_options
  subscribe_with_key b exchange queue routing_key =
      subscribe_with_options b exchange queue routing_key
        (record { queue_args = []; queue_type = ""; retry = none })

  unfoldable pub subscribe :
      Broker → (exchange queue : String) → Component F → Trace → Option Error × Component F × Trace
  unfolding subscribe_with_key
  subscribe b exchange queue = subscribe_with_key b exchange queue queue
