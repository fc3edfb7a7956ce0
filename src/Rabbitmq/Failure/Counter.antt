-- ===== src/Rabbitmq/Failure/Counter.antt =====
-- The retry counter that travels in the header x-retry-count.
use samsara_components.Prelude.{
  ℕ, suc, ◌≤◌, ◌<◌, String, false, ◌≡◌, ◌≢◌, refl, ◌∙◌, ap, [], arith, ℤ, pos, ◌+ℤ◌, int32,
  int32_small, suc_ℤ, ◌==◌,
}
use samsara_components.Go.Errors.{Error, rabbitmq_drop_to_dlx, errors_is}
use samsara_components.Go.Table.{
  Table, lookup, insert, maps_copy, lookup-insert_self, lookup-insert_ne, lookup-maps_copy_nil,
}
use samsara_components.Rabbitmq.Float.{Float64}
use samsara_components.Rabbitmq.Retry.{RetryPolicy, max_retries}
use samsara_components.Rabbitmq.Amqp.{Value, i32, Delivery}
use samsara_components.Rabbitmq.Failure.{
  retry_header, count_of, retry_count, stamp, clone, is_terminal,
}

-- Stamping a counter and reading it back gives the counter as an int32, and every other header is read
-- as before.
pub retry_count-stamp :
    (headers : Table Value) (n : ℤ)
    → (retry_count (stamp headers n) ≡ int32 n)
      × ((j : String) → j ≢ retry_header → lookup j (stamp headers n) ≡ lookup j headers)
unfolding retry_count stamp
retry_count-stamp headers n =
    (rw (lookup-insert_self retry_header (i32 (int32 n)) (maps_copy [] headers)) refl, other_header)
  where
    other_header :
        (j : String)
        → j ≢ retry_header
        → lookup j (insert retry_header (i32 (int32 n)) (maps_copy [] headers)) ≡ lookup j headers
    other_header j h =
        lookup-insert_ne retry_header j _ (maps_copy [] headers) h ∙ lookup-maps_copy_nil j headers

module _ {F : Float64} (policy : RetryPolicy F) where
  -- A delivery of a message that has been retried `n` times: the first carries no count, and each next
  -- one is a delivery of the clone that went to the delay queue, as the broker hands it back, with its
  -- counter untouched. Each handler error on the way asked for a retry.
  pub data Retried : ℕ → Delivery → Type 0 where
    first : {d : Delivery} → retry_count d.headers ≡ pos 0 → Retried 0 d
    again :
        {n : ℕ} {d d' : Delivery} (err : Error) (delay : ℤ)
        → Retried n d
        → is_terminal policy d err ≡ false
        → lookup retry_header d'.headers
          ≡ lookup retry_header (clone d (retry_count d.headers +ℤ pos 1) delay).headers
        → Retried (suc n) d'

module _ {F : Float64} (policy : RetryPolicy F) (m : ℕ) (limit : max_retries policy ≡ pos m)
    (fits : m < 2147483648) where
  not_terminal :
      (d : Delivery) (err : Error) (n : ℕ)
      → retry_count d.headers ≡ pos n
      → is_terminal policy d err ≡ false
      → n < m
  unfolding is_terminal
  not_terminal d err n e h = ground (arith, limit)

  next_count :
      (d d' : Delivery) (n : ℕ) (delay : ℤ)
      → retry_count d.headers ≡ pos n
      → n < m
      → lookup retry_header d'.headers
        ≡ lookup retry_header (clone d (retry_count d.headers +ℤ pos 1) delay).headers
      → retry_count d'.headers ≡ pos (suc n)
  unfolding clone
  next_count d d' n delay e h same =
      same_count
      ∙ (retry_count-stamp d.headers (retry_count d.headers +ℤ pos 1)).0
      ∙ rw (e, suc_ℤ n) (int32_small (suc n) (omega arith))
    where
      same_count :
          retry_count d'.headers ≡ retry_count (stamp d.headers (retry_count d.headers +ℤ pos 1))
      same_count = unfold retry_count in ap count_of same

  counter_of :
      {n : ℕ} {d : Delivery} → Retried policy n d → (n ≤ m) × (retry_count d.headers ≡ pos n)
  counter_of (first e) = (omega arith, e)
  counter_of (again {n} {d} {d'} err delay r more same) =
      let (_, e) = counter_of r in
      let below : n < m = not_terminal d err n e more in
      (below, next_count d d' n delay e below same)

  terminal_test :
      (d : Delivery) (err : Error) (n : ℕ)
      → n ≤ m
      → retry_count d.headers ≡ pos n
      → errors_is err rabbitmq_drop_to_dlx ≡ false
      → is_terminal policy d err ≡ (n == m)
  unfolding is_terminal
  terminal_test d err n h e f = ground (arith, limit)

  -- If the policy allows m retries, m < 2^31, then a message that has been retried n times carries the
  -- count n, n is at most m, and a handler error that asks for no drop is terminal exactly if n is m.
  pub Retried-counter :
      {n : ℕ} {d : Delivery}
      → Retried policy n d
      → (n ≤ m)
        × (retry_count d.headers ≡ pos n)
        × ((err : Error)
            → errors_is err rabbitmq_drop_to_dlx ≡ false
            → is_terminal policy d err ≡ (n == m))
  Retried-counter {n} {d} r =
      let (h, e) = counter_of r in (h, e, λ err f. terminal_test d err n h e f)
