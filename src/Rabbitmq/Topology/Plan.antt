-- ===== src/Rabbitmq/Topology/Plan.antt =====
-- What a bind or a round of declarations leaves in the trace.
use samsara_components.Prelude.{
  ℕ, String, ◌≡◌, ◌↔◌, List, [], ◌∷◌, Option, none, some, arith, str_eq, if◌then◌else◌, is_some,
  eq_iff,
}
use samsara_components.Go.Table.{
  Table, lookup, insert, maps_copy, lookup-insert, lookup-maps_copy_nil,
}
use samsara_components.Rabbitmq.Float.{Float64}
use samsara_components.Rabbitmq.Amqp.{Value, text, exchange_declare, spawn, Trace, Broker}
use samsara_components.Rabbitmq.Failure.{Subscription}
use samsara_components.Rabbitmq.Topology.{
  SubscribeOptions, ExchangeDecl, build_queue_args, bind_and_consume, declare_exchanges, bind_all,
  declare_companions,
}

-- The consumers that a trace has started: context and queue.
abbrev pub spawned : Trace → List (ℕ × String)
spawned [] = []
spawned (spawn ctx queue ∷ t) = (ctx, queue) ∷ spawned t
spawned (_ ∷ t) = spawned t

-- The exchanges that a trace has declared.
abbrev pub declared : Trace → List ExchangeDecl
declared [] = []
declared (exchange_declare ch name kind durable ∷ t) =
    record { name = name; kind = kind; durable = durable } ∷ declared t
declared (_ ∷ t) = declared t

-- The entries of a list, put one by one in front of another.
abbrev pub push_all {ℓ κ} : {A : Type ℓ} {B : Type κ} → (A → B) → List A → List B → List B
push_all f [] acc = acc
push_all f (x ∷ xs) acc = push_all f xs (f x ∷ acc)

module _ (b : Broker) (ch : ℕ) where
  pub declare_exchanges_lem :
      (es : List ExchangeDecl) (t : Trace)
      → let (err, t') = declare_exchanges b ch es t in
        (err ≡ none → declared t' ≡ push_all (λ e. e) es (declared t)) × (spawned t' ≡ spawned t)
  unfolding declare_exchanges
  declare_exchanges_lem [] t = ground arith
  declare_exchanges_lem (e ∷ es) t =
      ground (arith, declare_exchanges_lem es (exchange_declare ch e.name e.kind e.durable ∷ t))

module _ (b : Broker) (ch : ℕ) {F : Float64} where
  companions_lem :
      (sub : Subscription F) (t : Trace)
      → (spawned (declare_companions b ch sub.retry sub.queue t).1 ≡ spawned t)
        × (declared (declare_companions b ch sub.retry sub.queue t).1 ≡ declared t)
  unfolding bind_and_consume
  companions_lem sub t = ground arith

  -- A bind starts a consumer on the queue, under the given context, if and only if every declaration
  -- before it succeeds; it declares no exchange.
  pub bind_and_consume_lem :
      (ctx : ℕ) (sub : Subscription F) (t : Trace)
      → let (err, t') = bind_and_consume b ch ctx sub t in
        (spawned t' ≡ (if is_some err then spawned t else (ctx, sub.queue) ∷ spawned t))
        × (declared t' ≡ declared t)
  unfolding bind_and_consume
  bind_and_consume_lem ctx sub t = ground arith

  pub bind_all_lem :
      (ctx : ℕ) (subs : List (Subscription F)) (t : Trace)
      → let (err, t') = bind_all b ch ctx subs t in
        (err ≡ none
          → spawned t' ≡ push_all (λ (s : Subscription F). (ctx, s.queue)) subs (spawned t))
        × (declared t' ≡ declared t)
  unfolding bind_all
  bind_all_lem ctx [] t = ground arith
  bind_all_lem ctx (sub ∷ subs) t = ground (
    arith,
    bind_and_consume_lem ctx sub t,
    bind_all_lem ctx subs (bind_and_consume b ch ctx sub t).1,
  )

-- A read of a declaration's arguments, where nil reads like an empty map.
abbrev pub argument : String → Option (Table Value) → Option Value
argument k none = none
argument k (some args) = lookup k args

copy_lem :
    (queue_type k : String) (m : Table Value)
    → lookup k (
        if str_eq queue_type ""
        then maps_copy [] m
        else insert "x-queue-type" (text queue_type) (maps_copy [] m))
      ≡ (if str_eq queue_type ""
          then lookup k m
          else if str_eq k "x-queue-type"
          then some (text queue_type)
          else lookup k m)
copy_lem queue_type k m = ground (
  arith,
  lookup-maps_copy_nil k m,
  lookup-insert "x-queue-type" k (text queue_type) (maps_copy [] m),
)

-- The x-arguments of a queue declaration are the caller's, with a queue type, if one is given, in place
-- of theirs; and they are nil if and only if the options hold neither.
pub build_queue_args_lem :
    {F : Float64} (opts : SubscribeOptions F)
    → ((k : String)
        → argument k (build_queue_args opts) ≡ (
            if str_eq opts.queue_type ""
            then lookup k opts.queue_args
            else if str_eq k "x-queue-type"
            then some (text opts.queue_type)
            else lookup k opts.queue_args))
      × ((build_queue_args opts ≡ none) ↔ ((opts.queue_args ≡ []) × (opts.queue_type ≡ "")))
unfolding build_queue_args lookup
build_queue_args_lem opts = (
  λ k. ground (arith, copy_lem opts.queue_type k opts.queue_args),
  (λ h. ground (arith, eq_iff opts.queue_type ""), λ h. ground (arith, eq_iff opts.queue_type "")),
)
