-- ===== src/Rabbitmq/Retry.antt =====
-- RetryPolicy of rabbitmq/messaging.go: its defaults and the backoff schedule.
pub mod Backoff
use Prim.Native.String.{◌++◌ as cat}
use samsara_components.Prelude.{
  ℕ, zero, suc, ◌-◌, String, Bool, ◌≡◌, ℤ, pos, negsuc, is_pos, is_zero, max_ℤ, min_ℤ, str_eq,
  if◌then◌else◌,
}
use samsara_components.Rabbitmq.Float.{Float64}

pub record RetryPolicy (F : Float64) : Type 0 where
  pub max_retries : ℤ
  pub backoff : ℤ
  pub backoff_multiplier : F.Carrier
  pub max_backoff : ℤ
  pub retry_queue : String
  pub dlq : String

-- How often `for i := 1; i < attempt; i++` runs.
abbrev pub rounds_of : ℤ → ℕ
rounds_of (pos n) = n - 1
rounds_of (negsuc n) = 0

module _ {F : Float64} where
  unfoldable pub max_retries : RetryPolicy F → ℤ
  max_retries p = if is_zero p.max_retries then pos 3 else max_ℤ p.max_retries (pos 0)

  unfoldable pub retry_queue : RetryPolicy F → String → String
  retry_queue p queue = if str_eq p.retry_queue "" then cat queue ".retry" else p.retry_queue

  unfoldable pub dlq : RetryPolicy F → String → String
  dlq p queue = if str_eq p.dlq "" then cat queue ".dlq" else p.dlq

  -- The three defaults of `backoff`.
  unfoldable pub base_of : RetryPolicy F → ℤ
  base_of p = if is_pos p.backoff then p.backoff else pos 1_000_000_000

  unfoldable pub multiplier_of : RetryPolicy F → F.Carrier
  multiplier_of p =
      if F.lt p.backoff_multiplier F.one
      then (if F.is_zero p.backoff_multiplier then F.two else F.one)
      else p.backoff_multiplier

  unfoldable pub cap_of : RetryPolicy F → ℤ
  cap_of p = if is_pos p.max_backoff then p.max_backoff else pos 300_000_000_000

  -- `for i := 1; i < attempt; i++`: the rounds that are left, and `d`.
  unfoldable pub backoff_loop : RetryPolicy F → ℕ → F.Carrier → ℤ
  backoff_loop p zero d = min_ℤ (F.to_duration d) (cap_of p)
  backoff_loop p (suc rounds) d =
      let d' = F.mul d (multiplier_of p) in
      let rest = backoff_loop p rounds d' in
      if F.ge d' (F.of_duration (cap_of p)) then cap_of p else rest

  unfoldable pub backoff : RetryPolicy F → ℤ → ℤ
  unfolding backoff_loop
  backoff p attempt = backoff_loop p (rounds_of attempt) (F.of_duration (base_of p))
