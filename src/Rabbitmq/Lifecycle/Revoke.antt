-- ===== src/Rabbitmq/Lifecycle/Revoke.antt =====
-- Stop cancels the run context of the consumers on a connection before it closes the connection.
pub mod Covered
pub mod Consumers
use samsara_components.Prelude.{
  ℕ, ◌<◌, ◌==◌, Bool, true, false, ◌≡◌, ◌⊎◌, inl, inr, List, Option, some, arith, Bool-cases,
}
use samsara_components.Rabbitmq.Lifecycle.{closing, World, Action, new, run}
use samsara_components.Rabbitmq.Lifecycle.Signals.{run-calm}
use samsara_components.Rabbitmq.Lifecycle.Revoke.Covered.{is_start, IsSingle, Inv, new-Inv, run-Inv}
use samsara_components.Rabbitmq.Lifecycle.Revoke.Consumers.{is_started, Later, new-Later, run-Later}

-- The connection is about to be closed by the Stop of thread `j`, or it is the component's and no Start runs.
abbrev pub IsOver : World → (j k : ℕ) → Type 0
IsOver w j k = (w.pc j ≡ closing k) ⊎ ((w.conn ≡ some k) × ((n : ℕ) → is_start (w.pc n) ≡ false))

over_cancelled :
    (w : World) (i j k r : ℕ)
    → Inv w i
    → IsOver w j k
    → w.open_under k ≡ some r
    → w.cancelled r ≡ true
over_cancelled w i j k r inv (inl c) o = ground (arith, inv.taken_covered j k r, c)
over_cancelled w i j k r inv (inr (c, idle_all)) o = ground (arith, inv.covered k r, c, idle_all i)

-- Let the supervisor never call Start while another Start runs. Then, however calls of Start, Stop and
-- Subscribe overlap otherwise: when a Stop is about to close a connection, or when the component holds one
-- while no Start runs, and this connection is open, the run context of the Start that dialled it has been
-- cancelled. So has that of any consumers started on the connection, except for those that a Subscribe has
-- started under the context of a later Start. And no stop channel has been closed twice.
pub run-revokes :
    (ms : List (ℕ × Action)) (j k r : ℕ)
    → IsSingle new ms
    → IsOver (run new ms) j k
    → (run new ms).open_under k ≡ some r
    → ((run new ms).cancelled r ≡ true)
      × ((r' : ℕ)
          → is_started k r' (run new ms).consumers ≡ true
          → ((run new ms).cancelled r' ≡ true) ⊎ (r < r'))
      × ((run new ms).panicked ≡ false)
run-revokes ms j k r single over o =
    let (i, inv) = run-Inv new ms 0 single new-Inv in
    let c = over_cancelled (run new ms) i j k r inv over o in
    let later = run-Later new ms 0 single new-Inv new-Later in
    (
      c,
      (λ r' h. elim (Bool-cases (r == r')) [
        | inl e ↦ inl (ground (arith, c, e))
        | inr e ↦ inr (ground (arith, e, later.started_later k r r' o h))
      ]),
      run-calm ms,
    )
