-- ===== src/Rabbitmq/Component/History/Registered.antt =====
-- What a component of package rabbitmq has registered, and declares at every restart.
use samsara_components.Prelude.{
  ℕ, String, ◌≡◌, refl, sym, ap, ◌∙◌, arith, List, [], ◌∷◌, ◌++◌, map, append-nil, append_assoc,
  Option, ◌⊎◌,
}
use samsara_components.Go.Errors.{Error}
use samsara_components.Rabbitmq.Float.{Float64}
use samsara_components.Rabbitmq.Amqp.{Trace, Broker}
use samsara_components.Rabbitmq.Failure.{Subscription}
use samsara_components.Rabbitmq.Topology.{ExchangeDecl}
use samsara_components.Rabbitmq.Component.{
  Component, new, with_name, waiting, subscription, start_begin, start_topology,
}
use samsara_components.Rabbitmq.Component.Dial.{
  Winner, Call, Outcome, failed, cancelled, opened, race_dial,
}
use samsara_components.Rabbitmq.Component.Start.{start, after_race, went_on, start-IsUp}
use samsara_components.Rabbitmq.Topology.Plan.{declared, spawned, push_all}
use samsara_components.Rabbitmq.Config.{Config}
use samsara_components.Go.Options.{apply_all}
use samsara_components.Rabbitmq.Component.History.{
  ComponentCall, declares, subscribes, starts, leaves, stops, dies, on_call, calls,
}

module _ {F : Float64} where
  abbrev exchanges_in : ComponentCall F → List ExchangeDecl
  exchanges_in (declares e) = e ∷ []
  exchanges_in _ = []

  abbrev subs_in : ComponentCall F → List (Subscription F)
  subs_in (subscribes exchange queue key opts) = subscription exchange queue key opts ∷ []
  subs_in _ = []

  -- The abstract component: the registrations of a history, in order, whatever became of them.
  abbrev pub exchanges_of : List (ComponentCall F) → List ExchangeDecl
  exchanges_of [] = []
  exchanges_of (e ∷ es) = exchanges_in e ++ exchanges_of es

  abbrev pub subs_of : List (ComponentCall F) → List (Subscription F)
  subs_of [] = []
  subs_of (e ∷ es) = subs_in e ++ subs_of es

-- Two states of a component with the same registrations.
abbrev IsAlike : {F : Float64} → (c c' : Component F) → Type 0
IsAlike c c' = (c'.exchanges ≡ c.exchanges) × (c'.subs ≡ c.subs)

topology-IsAlike :
    {F : Float64} (b : Broker) (conn ch ctx : ℕ) (c : Component F) (t : Trace)
    → IsAlike c (start_topology b conn ch ctx c t).1
unfolding start_topology
topology-IsAlike b conn ch ctx c t = ground arith

module _ {F : Float64} (b : Broker) (timeout : String) (channel : (conn : ℕ) → Error ⊎ ℕ)
    (ctx : ℕ) where
  race-IsAlike :
      (c : Component F) (t : Trace) (r : List Call × Outcome)
      → IsAlike c (after_race b timeout channel ctx c t r).component
  race-IsAlike c t (made, failed e) = (refl, refl)
  race-IsAlike c t (made, cancelled) = (refl, refl)
  race-IsAlike c t (made, opened conn ch) = topology-IsAlike b conn ch ctx c t

  start-IsAlike :
      (stop_ch : ℕ) (w : Winner) (dial : Error ⊎ ℕ) (c : Component F) (t : Trace)
      → IsAlike c (start b timeout channel ctx stop_ch w dial c t).component
  unfolding start start_begin
  start-IsAlike stop_ch w dial c t =
      race-IsAlike (start_begin stop_ch ctx c) t (race_dial timeout channel w dial)

module _ {F : Float64} (b : Broker) (amqp_code : Error → Option ℕ) (timeout : String) where
  on_call-registered :
      (e : ComponentCall F) (c : Component F) (t : Trace)
      → let (c', t') = on_call b amqp_code timeout e (c, t) in
        (c'.exchanges ≡ c.exchanges ++ exchanges_in e) × (c'.subs ≡ c.subs ++ subs_in e)
  unfolding on_call
  on_call-registered (declares e) c t = ground (arith, append-nil c.exchanges, append-nil c.subs)
  on_call-registered (subscribes exchange queue key opts) c t =
      ground (arith, append-nil c.exchanges, append-nil c.subs)
  on_call-registered (starts stop_ch ctx w dial channel) c t =
      let (x, s) = start-IsAlike b timeout channel ctx stop_ch w dial c t in
      (x ∙ sym (append-nil c.exchanges), s ∙ sym (append-nil c.subs))
  on_call-registered (leaves ctx) c t = ground (arith, append-nil c.exchanges, append-nil c.subs)
  on_call-registered (stops closed) c t = ground (arith, append-nil c.exchanges, append-nil c.subs)
  on_call-registered (dies queue reason) c t =
      ground (arith, append-nil c.exchanges, append-nil c.subs)

  -- Whatever calls are made on a component, its registrations are those that it had and then the
  -- calls', in order.
  pub calls-registered :
      (es : List (ComponentCall F)) (c : Component F) (t : Trace)
      → let (c', t') = calls b amqp_code timeout es (c, t) in
        (c'.exchanges ≡ c.exchanges ++ exchanges_of es) × (c'.subs ≡ c.subs ++ subs_of es)
  unfolding calls
  calls-registered [] c t = (sym (append-nil c.exchanges), sym (append-nil c.subs))
  calls-registered (e ∷ es) c t =
      let (c', t') = on_call b amqp_code timeout e (c, t) in
      let (x, s) = on_call-registered e c t in
      let (xs, ss) = calls-registered es c' t' in
      (
        xs
            ∙ ap (λ l. l ++ exchanges_of es) x
            ∙ append_assoc c.exchanges (exchanges_in e) (exchanges_of es),
        ss ∙ ap (λ l. l ++ subs_of es) s ∙ append_assoc c.subs (subs_in e) (subs_of es),
      )

  -- New registers nothing, whatever name it is given.
  named-registers :
      (names : List String) (c : Component F) → IsAlike c (apply_all (map with_name names) c)
  unfolding apply_all with_name
  named-registers [] c = (refl, refl)
  named-registers (name ∷ names) c = named-registers names (with_name name c)

  -- A component that New has made, under whatever name, and on which any calls of DeclareExchange, Subscribe, Start and Stop have
  -- been made since, one after the other, whatever came of them and whichever of its consumers have
  -- died: a Start that gets to ready declares exactly the exchanges that have been registered, and
  -- starts exactly one consumer for each of the subscriptions, all in the order of registration; and
  -- it puts no consumer on record as dead.
  pub calls-restored :
      (made : ℕ) (cfg : Config) (names : List String) (es : List (ComponentCall F))
      (stop_ch ctx : ℕ) (w : Winner) (dial : Error ⊎ ℕ) (channel : (conn : ℕ) → Error ⊎ ℕ)
      → let (c, t) = calls b amqp_code timeout es (new made cfg (map with_name names), []) in
        let s = start b timeout channel ctx stop_ch w dial c t in
        s.ended ≡ went_on waiting
        → (declared s.trace ≡ push_all (λ e. e) (exchanges_of es) (declared t))
          × (spawned s.trace
              ≡ push_all (λ (sub : Subscription F). (ctx, sub.queue)) (subs_of es) (spawned t))
          × (s.component.dead_consumers ≡ [])
  unfolding new
  calls-restored made cfg names es stop_ch ctx w dial channel up =
      let c₀ = new made cfg (map with_name names) in
      let (c, t) = calls b amqp_code timeout es (c₀, []) in
      let (x, s) = calls-registered es c₀ [] in
      let (none_x, none_s) = named-registers names (new made cfg []) in
      let (conn, ch, d, k, l, m, dead, ds, ss, all) =
        start-IsUp b timeout channel ctx stop_ch w dial c t up in
      (
        ds ∙ ap (λ l. push_all (λ e. e) l (declared t)) (x ∙ ap (λ l. l ++ exchanges_of es) none_x),
        ss
            ∙ ap (λ l. push_all (λ (sub : Subscription F). (ctx, sub.queue)) l (spawned t))
                (s ∙ ap (λ l. l ++ subs_of es) none_s),
        dead,
      )
