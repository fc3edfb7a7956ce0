-- ===== src/Rabbitmq/Component/Stop.antt =====
-- The whole of Stop of rabbitmq/rabbitmq.go in one thread: the handles are taken over, the run context is
-- cancelled, and the channel and the connection are closed. Which stop channels are closed, and so the
-- signal to Start, is in Lifecycle.
use samsara_components.Prelude.{
  ℕ, String, Bool, false, ◌==◌, ◌∷◌, Option, none, some, if◌then◌else◌,
}
use samsara_components.Go.Errors.{Error}
use samsara_components.Rabbitmq.Float.{Float64}
use samsara_components.Rabbitmq.Amqp.{
  Call, close_channel, close_conn, cancel, log_error, Trace, Broker,
}
use samsara_components.Rabbitmq.Component.{Component, stop_swap}

-- `amqp_code` is `err.(*amqp.Error)` with the field Code; amqp.ChannelError is 504.
module _ (b : Broker) (amqp_code : Error → Option ℕ) where
  unfoldable pub is_already_closed : Option Error → Bool
  is_already_closed none = false
  is_already_closed (some e) = elim (amqp_code e) [ none ↦ false | some code ↦ code == 504 ]

  -- `if err := call; err != nil && !isAlreadyClosed(err) { c.log.Error(complaint) }`
  abbrev pub close_handle : Call → String → Trace → Trace
  close_handle call complaint t = elim (b.answer t call) [
    | none ↦ call ∷ t
    | some e ↦ if is_already_closed (some e) then call ∷ t else log_error complaint ∷ call ∷ t
  ]

  abbrev pub cancel_run : Option ℕ → Trace → Trace
  cancel_run none t = t
  cancel_run (some ctx) t = cancel ctx ∷ t

  abbrev pub shut_channel : Option ℕ → Trace → Trace
  shut_channel none t = t
  shut_channel (some ch) t = close_handle (close_channel ch) "rabbitmq: channel close error" t

  abbrev pub shut_conn : Option ℕ → Trace → Trace
  shut_conn none t = t
  shut_conn (some conn) t = close_handle (close_conn conn) "rabbitmq: connection close error" t

  -- `closed` is the channel that it makes and closes.
  unfoldable pub stop : {F : Float64} → (closed : ℕ) → Component F → Trace → Component F × Trace
  unfolding is_already_closed stop_swap
  stop closed c t =
      (stop_swap closed c, shut_conn c.conn (shut_channel c.ch (cancel_run c.run_ctx t)))
