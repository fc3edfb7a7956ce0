-- ===== src/Rabbitmq/Component/Start.antt =====
-- The whole of Start of rabbitmq/rabbitmq.go up to ready: the first critical section, the raced dial, and the
-- topology on the channel that it has opened.
use samsara_components.Prelude.{
  ℕ, String, ◌≡◌, ◌≢◌, refl, sym, ap, ◌∙◌, arith, List, [], ◌∷◌, some, ◌⊎◌, inl, inr, count,
}
use samsara_components.Go.Errors.{Error}
use samsara_components.Rabbitmq.Float.{Float64}
use samsara_components.Rabbitmq.Amqp.{close_channel, close_conn, Trace, Broker}
use samsara_components.Rabbitmq.Failure.{Subscription}
use samsara_components.Rabbitmq.Topology.Plan.{spawned, declared, push_all}
use samsara_components.Rabbitmq.Topology.Wiring.{after_exchanges, after_subs}
use samsara_components.Rabbitmq.Component.{
  Component, Progress, failed, waiting, start_begin, start_topology,
}
use samsara_components.Rabbitmq.Component.Connect.{
  last_two, start_topology-waiting, start_topology-failed,
}
use samsara_components.Rabbitmq.Component.Dial as Dial
use samsara_components.Rabbitmq.Component.Dial.{
  Winner, ctx_done, timed_out, dialled, Call, opened, cancelled, race_dial, is_made, is_closed,
  IsTidy, Late, race_dial-IsTidy_iff,
}

-- Start has returned nil before it was ready, or it goes on as Progress says.
pub data Ended : Type 0 where
  left : Ended
  went_on : Progress → Ended

-- What Start comes to, what it makes of the component, its calls of the client, and what becomes of
-- connections while it dials.
pub record Started (F : Float64) : Type 0 where
  pub ended : Ended
  pub component : Component F
  pub trace : Trace
  pub dialling : List Call

-- The one connection that was dialled has been closed, and its channel before it.
abbrev pub IsUndone : Trace → List Call → Type 0
IsUndone t calls =
    (conn ch : ℕ) × (calls ≡ Dial.made conn ∷ [])
    × (last_two t ≡ close_conn conn ∷ close_channel ch ∷ [])

module _ {F : Float64} (b : Broker) (timeout : String) (channel : (conn : ℕ) → Error ⊎ ℕ)
    (ctx : ℕ) where
  abbrev pub after_race : Component F → Trace → List Call × Dial.Outcome → Started F
  after_race c t (calls, Dial.failed e) = record {
    ended = went_on (failed e);
    component = c;
    trace = t;
    dialling = calls;
  }
  after_race c t (calls, cancelled) = record {
    ended = left;
    component = c;
    trace = t;
    dialling = calls;
  }
  after_race c t (calls, opened conn ch) =
      let (p, c', t') = start_topology b conn ch ctx c t in
      record { ended = went_on p; component = c'; trace = t'; dialling = calls }

  -- `stop_ch` and `ctx` are the channel and the run context that it makes.
  unfoldable pub start :
      (stop_ch : ℕ) → Winner → (dial : Error ⊎ ℕ) → Component F → Trace → Started F
  unfolding race_dial start_topology start_begin
  start stop_ch w dial c t =
      after_race (start_begin stop_ch ctx c) t (race_dial timeout channel w dial)

  -- The handles are set, all consumers of a former run are forgotten, and everything that was registered is
  -- declared, or bound under the run context that Subscribe finds.
  abbrev pub IsUp : (before after : Component F) → Trace → Trace → List Call → Type 0
  IsUp c c' t t' calls =
      (conn ch : ℕ) × (calls ≡ Dial.made conn ∷ [])
      × (c'.conn ≡ some conn)
      × (c'.ch ≡ some ch)
      × (c'.run_ctx ≡ some ctx)
      × (c'.dead_consumers ≡ [])
      × (declared t' ≡ push_all (λ e. e) c.exchanges (declared t))
      × (spawned t' ≡ push_all (λ (s : Subscription F). (ctx, s.queue)) c.subs (spawned t))
      × (t' ≡ after_subs ch ctx c.subs (after_exchanges ch c.exchanges t))

  abbrev pub IsSound : Component F → Trace → Started F → Type 0
  IsSound c t s = elim s.ended [
    | left ↦ (s.trace ≡ t) × (count is_made s.dialling ≡ count is_closed s.dialling)
    | went_on p ↦ elim p [
      | failed e ↦
          ((s.trace ≡ t) × (count is_made s.dialling ≡ count is_closed s.dialling))
          ⊎ IsUndone s.trace s.dialling
      | waiting ↦ IsUp c s.component t s.trace s.dialling
    ]
  ]

  ctx_kept :
      (conn ch : ℕ) (c : Component F) (t : Trace)
      → (start_topology b conn ch ctx c t).0 ≡ waiting
      → (start_topology b conn ch ctx c t).1.run_ctx ≡ c.run_ctx
  unfolding start_topology
  ctx_kept conn ch c t h = ground (arith, h)

  topology-IsSound :
      (conn ch : ℕ) (c : Component F) (t : Trace) (r : Progress × Component F × Trace)
      → start_topology b conn ch ctx c t ≡ r
      → c.run_ctx ≡ some ctx
      → IsSound c t (record {
        ended = went_on r.0;
        component = r.1;
        trace = r.2;
        dialling = Dial.made conn ∷ [];
      })
  topology-IsSound conn ch c t (failed e, c', t') h k = inr (
    conn,
    ch,
    refl,
    ap (λ r. last_two r.2) (sym h) ∙ start_topology-failed b conn ch ctx c t e (ap (λ r. r.0) h),
  )
  topology-IsSound conn ch c t (waiting, c', t') h k =
      let up = ap (λ r. r.0) h in
      let (m, n, d, x, s, all) = start_topology-waiting b conn ch ctx c t up in
      let kept = ctx_kept conn ch c t up in (conn, ch, refl, cc, cc, cc, cc, cc, cc, cc)

  race-IsSound :
      (c : Component F) (t : Trace) (r : List Call × Dial.Outcome)
      → c.run_ctx ≡ some ctx
      → IsTidy r
      → IsSound c t (after_race c t r)
  race-IsSound c t (calls, Dial.failed e) k tidy = inl (refl, tidy)
  race-IsSound c t (calls, cancelled) k tidy = (refl, tidy)
  race-IsSound c t (calls, opened conn ch) k tidy =
      rw tidy (topology-IsSound conn ch c t (start_topology b conn ch ctx c t) refl k)

  -- Unless the timer fires first and the dial succeeds after all, a Start that returns before it is ready,
  -- because the context is done or with an error, has closed the connection that was dialled, if one
  -- was, and its channel before it. A Start that gets to ready has dialled once; it holds that
  -- connection with its channel and its run context, and has no dead consumer on record. On that
  -- channel it has made exactly these calls, in this order: a declaration of every registered exchange;
  -- and for every subscription, the declarations of its delay and dead-letter queues, if it has a
  -- retry policy, and of its queue, the binding of that to its exchange under its routing key, and a
  -- consumer, which runs under that run context.
  pub start-IsSound :
      (stop_ch : ℕ) (w : Winner) (dial : Error ⊎ ℕ) (c : Component F) (t : Trace)
      → ¬ Late w dial
      → IsSound c t (start stop_ch w dial c t)
  unfolding start start_begin
  start-IsSound stop_ch w dial c t timely =
      race-IsSound (start_begin stop_ch ctx c) t (race_dial timeout channel w dial) refl
        ((race_dial-IsTidy_iff timeout channel w dial).1 timely)

  Late-fails :
      (w : Winner) (dial : Error ⊎ ℕ) (c : Component F) (t : Trace)
      → Late w dial
      → (after_race c t (race_dial timeout channel w dial)).ended ≢ went_on waiting
  unfolding race_dial
  Late-fails timed_out (inr conn) c t l = λ h. absurd cc
  Late-fails timed_out (inl e) c t l = absurd l
  Late-fails ctx_done dial c t l = absurd l
  Late-fails dialled dial c t l = absurd l

  race-IsUp :
      (c : Component F) (t : Trace) (r : List Call × Dial.Outcome)
      → c.run_ctx ≡ some ctx
      → IsTidy r
      → let s = after_race c t r in
        s.ended ≡ went_on waiting → IsUp c s.component t s.trace s.dialling
  race-IsUp c t (calls, Dial.failed e) k tidy h = absurd cc
  race-IsUp c t (calls, cancelled) k tidy h = absurd cc
  race-IsUp c t (calls, opened conn ch) k tidy h =
      let up : (start_topology b conn ch ctx c t).0 ≡ waiting = cc in
      let (m, n, d, x, s, all) = start_topology-waiting b conn ch ctx c t up in
      (conn, ch, tidy, m, n, ctx_kept conn ch c t up ∙ k, d, x, s, all)

  -- The part on a Start that gets to ready, without the condition on the timer.
  pub start-IsUp :
      (stop_ch : ℕ) (w : Winner) (dial : Error ⊎ ℕ) (c : Component F) (t : Trace)
      → let s = start stop_ch w dial c t in
        s.ended ≡ went_on waiting → IsUp c s.component t s.trace s.dialling
  unfolding start start_begin
  start-IsUp stop_ch w dial c t h =
      let begun = start_begin stop_ch ctx c in
      race-IsUp begun t (race_dial timeout channel w dial) refl
        ((race_dial-IsTidy_iff timeout channel w dial).1 (λ l. Late-fails w dial begun t l h)) h
