-- ===== src/Rabbitmq/Component/History/Closing.antt =====
-- What a run of a component of package rabbitmq closes, from Start to Stop.
use samsara_components.Prelude.{
  ℕ, String, Bool, true, false, ◌≡◌, refl, ap, ◌∙◌, arith, List, [], ◌∷◌, Option, some, ◌⊎◌,
  is_some,
}
use samsara_components.Go.Errors.{Error}
use samsara_components.Rabbitmq.Float.{Float64}
use samsara_components.Rabbitmq.Amqp.{
  exchange_declare, close_channel, close_conn, cancel, Trace, Broker,
}
use samsara_components.Rabbitmq.Amqp as Amqp
use samsara_components.Rabbitmq.Failure.{Subscription}
use samsara_components.Rabbitmq.Topology.{
  ExchangeDecl, bind_and_consume, declare_exchanges, bind_all,
}
use samsara_components.Rabbitmq.Component.{Component, waiting, start_begin, start_topology, health}
use samsara_components.Rabbitmq.Component.Dial.{
  Winner, Call, Outcome, made, failed, cancelled, opened, race_dial,
}
use samsara_components.Rabbitmq.Component.Start.{start, after_race, went_on, start-IsUp}
use samsara_components.Rabbitmq.Component.Stop.{stop}
use samsara_components.Rabbitmq.Component.History.{
  ComponentCall, declares, subscribes, dies, on_call, calls,
}

-- The calls that end something: a run context, a channel, a connection. The latest stands first.
abbrev pub closings : Trace → List Amqp.Call
closings [] = []
closings (close_channel ch ∷ t) = close_channel ch ∷ closings t
closings (close_conn conn ∷ t) = close_conn conn ∷ closings t
closings (cancel ctx ∷ t) = cancel ctx ∷ closings t
closings (_ ∷ t) = closings t

module _ (b : Broker) (ch : ℕ) where
  closings-declare :
      (es : List ExchangeDecl) (t : Trace) → closings (declare_exchanges b ch es t).1 ≡ closings t
  unfolding declare_exchanges
  closings-declare [] t = refl
  closings-declare (e ∷ es) t =
      ground (arith, closings-declare es (exchange_declare ch e.name e.kind e.durable ∷ t))

  module _ {F : Float64} where
    closings-bind :
        (ctx : ℕ) (sub : Subscription F) (t : Trace)
        → closings (bind_and_consume b ch ctx sub t).1 ≡ closings t
    unfolding bind_and_consume
    closings-bind ctx sub t = ground arith

    closings-bind_all :
        (ctx : ℕ) (subs : List (Subscription F)) (t : Trace)
        → closings (bind_all b ch ctx subs t).1 ≡ closings t
    unfolding bind_all
    closings-bind_all ctx [] t = refl
    closings-bind_all ctx (sub ∷ subs) t = ground (
      arith,
      closings-bind ctx sub t,
      closings-bind_all ctx subs (bind_and_consume b ch ctx sub t).1,
    )

module _ {F : Float64} (b : Broker) (ctx : ℕ) where
  closings-topology :
      (conn ch : ℕ) (c : Component F) (t : Trace)
      → let (p, c', t') = start_topology b conn ch ctx c t in p ≡ waiting → closings t' ≡ closings t
  unfolding start_topology
  closings-topology conn ch c t h = ground (
    arith,
    closings-declare b ch c.exchanges t,
    closings-bind_all b ch ctx c.subs (declare_exchanges b ch c.exchanges t).1,
  )

  closings-race :
      (timeout : String) (channel : (conn : ℕ) → Error ⊎ ℕ) (c : Component F) (t : Trace)
      (r : List Call × Outcome)
      → let s = after_race b timeout channel ctx c t r in
        s.ended ≡ went_on waiting → closings s.trace ≡ closings t
  closings-race timeout channel c t (calls, failed e) h = absurd cc
  closings-race timeout channel c t (calls, cancelled) h = absurd cc
  closings-race timeout channel c t (calls, opened conn ch) h = closings-topology conn ch c t cc

-- A registration, or a consumer that dies.
abbrev pub is_quiet : {F : Float64} → ComponentCall F → Bool
is_quiet (declares e) = true
is_quiet (subscribes exchange queue key opts) = true
is_quiet (dies queue reason) = true
is_quiet _ = false

abbrev pub IsQuiet : {F : Float64} → List (ComponentCall F) → Type 0
IsQuiet [] = Unit {0}
IsQuiet (e ∷ es) = (is_quiet e ≡ true) × IsQuiet es

-- The same handles, and nothing closed from one trace to the other.
abbrev IsKept : {F : Float64} → (c c' : Component F) → (t t' : Trace) → Type 0
IsKept c c' t t' =
    (c'.conn ≡ c.conn) × (c'.ch ≡ c.ch) × (c'.run_ctx ≡ c.run_ctx) × (closings t' ≡ closings t)

module _ {F : Float64} (b : Broker) (amqp_code : Error → Option ℕ) (timeout : String) where
  on_call-IsKept :
      (e : ComponentCall F) (c : Component F) (t : Trace)
      → is_quiet e ≡ true
      → let (c', t') = on_call b amqp_code timeout e (c, t) in IsKept c c' t t'
  unfolding on_call
  on_call-IsKept (declares e) c t h = ground arith
  on_call-IsKept (subscribes exchange queue key opts) c t h = ground arith
  on_call-IsKept (dies queue reason) c t h = ground arith
  on_call-IsKept _ c t h = absurd cc

  calls-IsKept :
      (es : List (ComponentCall F)) (c : Component F) (t : Trace)
      → IsQuiet es
      → let (c', t') = calls b amqp_code timeout es (c, t) in IsKept c c' t t'
  unfolding calls
  calls-IsKept [] c t h = (refl, refl, refl, refl)
  calls-IsKept (e ∷ es) c t (h, hs) =
      let (c', t') = on_call b amqp_code timeout e (c, t) in
      let (x, y, z, u) = on_call-IsKept e c t h in
      let (x', y', z', u') = calls-IsKept es c' t' hs in (x' ∙ x, y' ∙ y, z' ∙ z, u' ∙ u)

  stop_lem :
      (closed closed' : ℕ) (c : Component F) (t : Trace) (conn ch ctx : ℕ)
      → c.conn ≡ some conn
      → c.ch ≡ some ch
      → c.run_ctx ≡ some ctx
      → let (c', t') = stop b amqp_code closed c t in
        (closings t' ≡ close_conn conn ∷ close_channel ch ∷ cancel ctx ∷ closings t)
        × (is_some (health b t' c') ≡ true)
        × ((stop b amqp_code closed' c' t').1 ≡ cancel ctx ∷ t')
  unfolding stop health
  stop_lem closed closed' c t conn ch ctx x y z = ground arith

  -- A Start that gets to ready, then any calls of DeclareExchange and Subscribe, and any deaths of consumers,
  -- and then a Stop: between the call of Start and the return of Stop the run context is cancelled, the
  -- channel closed and then the connection, which is the one that was dialled, each of them once, and
  -- nothing else is closed; after that Health reports an error, and a further Stop closes nothing.
  pub start-then_stop :
      (c : Component F) (t : Trace) (stop_ch ctx closed closed' : ℕ) (w : Winner) (dial : Error ⊎ ℕ)
      (channel : (conn : ℕ) → Error ⊎ ℕ) (es : List (ComponentCall F))
      → IsQuiet es
      → let s = start b timeout channel ctx stop_ch w dial c t in
        let (c', t') = calls b amqp_code timeout es (s.component, s.trace) in
        let (c'', t'') = stop b amqp_code closed c' t' in
        s.ended ≡ went_on waiting
        → (conn ch : ℕ) × (s.dialling ≡ made conn ∷ [])
          × (closings t'' ≡ close_conn conn ∷ close_channel ch ∷ cancel ctx ∷ closings t)
          × (is_some (health b t'' c'') ≡ true)
          × ((stop b amqp_code closed' c'' t'').1 ≡ cancel ctx ∷ t'')
  start-then_stop c t stop_ch ctx closed closed' w dial channel es quiet up =
      let s = start b timeout channel ctx stop_ch w dial c t in
      let (c', t') = calls b amqp_code timeout es (s.component, s.trace) in
      let (conn, ch, d, x, y, z, dead, decls, subs, all) =
        start-IsUp b timeout channel ctx stop_ch w dial c t up in
      let (x', y', z', kept) = calls-IsKept es s.component s.trace quiet in
      let (ends, ill, again) =
        stop_lem closed closed' c' t' conn ch ctx (x' ∙ x) (y' ∙ y) (z' ∙ z) in
      (
        conn,
        ch,
        d,
        ends
            ∙ ap (λ l. close_conn conn ∷ close_channel ch ∷ cancel ctx ∷ l)
                (kept
                  ∙ unfold start start_begin in
                    closings-race b ctx timeout channel (start_begin stop_ch ctx c) t
                      (race_dial timeout channel w dial) up),
        ill,
        again,
      )
