-- ===== src/Rabbitmq/Amqp.antt =====
-- What package rabbitmq asks of amqp091-go, the library that it stands on. Every call is entered in a
-- trace, newest first; the answers are the broker's, which may depend on all that happened before.
use samsara_components.Prelude.{ℕ, String, Bool, List, ◌∷◌, Option, none, some, ℤ}
use samsara_components.Go.Errors.{Error}
use samsara_components.Go.Table.{Table}

-- A header's or an argument's value. `other` stands for the types that the package does not look into.
pub data Value : Type 0 where
  i32 i64 int : ℤ → Value
  text : String → Value
  other : ℕ → Value

pub data DeliveryMode : Type 0 where
  transient persistent : DeliveryMode

-- The fields of amqp.Publishing that the package sets. `expiration` is the number whose decimal text the
-- field holds, `none` the empty text; `headers` is `[]` where the source leaves it nil.
pub record Publishing : Type 0 where
  pub headers : Table Value
  pub content_type : String
  pub delivery_mode : DeliveryMode
  pub correlation_id : String
  pub message_id : String
  pub timestamp : ℤ
  pub msg_type : String
  pub app_id : String
  pub body : List ℕ
  pub expiration : Option ℤ

-- The fields of amqp.Delivery that the package reads. `tag` tells deliveries apart.
pub record Delivery : Type 0 where
  pub tag : ℕ
  pub headers : Table Value
  pub content_type : String
  pub correlation_id : String
  pub message_id : String
  pub timestamp : ℤ
  pub msg_type : String
  pub app_id : String
  pub body : List ℕ

-- Channels and connections are handles. The flags that the package passes to every call alike are left
-- out: durable and not auto-deleted, exclusive or no-wait for queues, manual acknowledgement, one
-- delivery at a time. A queue's arguments are `none` where the source passes nil.
pub data Call : Type 0 where
  exchange_declare : (ch : ℕ) (name kind : String) (durable : Bool) → Call
  queue_declare : (ch : ℕ) (queue : String) (args : Option (Table Value)) → Call
  queue_bind : (ch : ℕ) (queue key exchange : String) → Call
  consume : (ch : ℕ) (queue : String) → Call
  publish_with_context : (ch : ℕ) (timeout : ℤ) (exchange key : String) (msg : Publishing) → Call
  ack : (tag : ℕ) → Call
  nack : (tag : ℕ) (requeue : Bool) → Call
  close_channel close_conn : ℕ → Call
  -- `Config.OnOperation`, which answers an error where it panics.
  sink : (op : String) (d : ℤ) (err : Option Error) → Call
  log_error : String → Call
  -- the cancel function of a context
  cancel : (ctx : ℕ) → Call
  -- `go func() { … }()`: a consumer under a context, on a queue's deliveries.
  spawn : (ctx : ℕ) (queue : String) → Call

abbrev pub Trace : Type 0
Trace = List Call

-- The answer to a call is its error, nil or not; `channel_closed` is `Channel.IsClosed`.
pub record Broker : Type 0 where
  pub answer : Trace → Call → Option Error
  pub channel_closed : Trace → ℕ → Bool
  pub conn_closed : Trace → ℕ → Bool

-- A function that returns an `error` and leaves calls in the trace.
abbrev pub Cmd : Type 0
Cmd = Trace → Option Error × Trace

abbrev pub succeed : Cmd
succeed t = (none, t)

-- `if err := f(); err != nil { return err }; rest`
infixr 6 ◌then_do◌
abbrev pub ◌then_do◌ : Cmd → Cmd → Cmd
◌then_do◌ f rest t = let (err, t') = f t in elim err [ none ↦ rest t' | some e ↦ (some e, t') ]

-- `_ = call`
abbrev pub ignore : Call → Trace → Trace
ignore c t = c ∷ t

module _ (b : Broker) where
  -- `if err := call; err != nil { return wrap(err) }; return nil`
  abbrev pub perform : Call → (Error → Error) → Cmd
  perform c wrap t = elim (b.answer t c) [ none ↦ (none, c ∷ t) | some e ↦ (some (wrap e), c ∷ t) ]

  -- A call whose error is at most logged.
  abbrev pub attempt : Call → String → Trace → Trace
  attempt c complaint t = elim (b.answer t c) [
    | none ↦ c ∷ t
    | some e ↦ log_error complaint ∷ c ∷ t
  ]
