-- ===== src/Tests/Histories.antt =====
-- Histories of a component of package rabbitmq.
use samsara_components.Prelude.{ℕ, true, ◌≡◌, refl, List, [], ◌∷◌, map, Option, none, inr, is_some}
use samsara_components.Go.Errors.{Error}
use samsara_components.Rabbitmq.Float.{whole}
use samsara_components.Rabbitmq.Amqp.{close_channel, close_conn, cancel}
use samsara_components.Rabbitmq.Failure.{Subscription}
use samsara_components.Rabbitmq.Topology.{ExchangeDecl}
use samsara_components.Rabbitmq.Topology.Plan.{declared, spawned, push_all}
use samsara_components.Rabbitmq.Component.{new, with_name, health}
use samsara_components.Rabbitmq.Component.Dial.{dialled, made}
use samsara_components.Rabbitmq.Component.Start.{start}
use samsara_components.Rabbitmq.Component.Stop.{stop}
use samsara_components.Rabbitmq.Component.History.{
  ComponentCall, declares, subscribes, starts, leaves, stops, dies, calls,
}
use samsara_components.Rabbitmq.Component.History.Registered.{exchanges_of, subs_of, calls-restored}
use samsara_components.Rabbitmq.Component.History.Closing.{closings, start-then_stop}
use samsara_components.Tests.Messaging.{willing, config, component}

abbrev no_code : Error → Option ℕ
no_code e = none

abbrev shop : ExchangeDecl
shop = record { name = "shop"; kind = "topic"; durable = true }

-- One exchange is registered before the first run and one subscription during it; its consumer dies.
abbrev first_run : List (ComponentCall whole)
first_run =
    declares shop
    ∷ starts 1 1 dialled (inr 7) (λ conn. inr 8)
    ∷ subscribes "shop" "orders" "orders.#"
        (record { queue_args = []; queue_type = "quorum"; retry = none })
    ∷ dies "orders" "deliveries closed"
    ∷ stops 2
    ∷ leaves 1
    ∷ []

calls-restored_example :
    let (c, t) =
      calls willing no_code "10s" first_run (new 0 config (map with_name ("events" ∷ [])), []) in
    let s = start willing "10s" (λ conn. inr 9) 3 4 dialled (inr 5) c t in
    (declared s.trace ≡ push_all (λ e. e) (exchanges_of first_run) (declared t))
    × (spawned s.trace
        ≡ push_all (λ (sub : Subscription whole). (3, sub.queue)) (subs_of first_run) (spawned t))
    × (s.component.dead_consumers ≡ [])
unfolding start calls new with_name
calls-restored_example =
    calls-restored willing no_code "10s" 0 config ("events" ∷ []) first_run 4 3 dialled (inr 5)
      (λ conn. inr 9) refl

abbrev registrations : List (ComponentCall whole)
registrations = declares shop ∷ dies "orders" "deliveries closed" ∷ []

start-then_stop_example :
    let s = start willing "10s" (λ conn. inr 9) 3 4 dialled (inr 5) component [] in
    let (c', t') = calls willing no_code "10s" registrations (s.component, s.trace) in
    let (c'', t'') = stop willing no_code 6 c' t' in
    (conn ch : ℕ) × (s.dialling ≡ made conn ∷ [])
    × (closings t'' ≡ close_conn conn ∷ close_channel ch ∷ cancel 3 ∷ [])
    × (is_some (health willing t'' c'') ≡ true)
    × ((stop willing no_code 7 c'' t'').1 ≡ cancel 3 ∷ t'')
unfolding start
start-then_stop_example =
    start-then_stop willing no_code "10s" component [] 4 3 6 7 dialled (inr 5) (λ conn. inr 9)
      registrations (refl, (refl, tt)) refl
