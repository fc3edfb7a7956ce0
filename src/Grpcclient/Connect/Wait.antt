-- ===== src/Grpcclient/Connect/Wait.antt =====
-- The wait of grpcclient/grpcclient.go ends, and how Start then ends.
use samsara_components.Prelude.{
  ℕ, zero, suc, ◌+◌, ◌≤◌, true, false, ◌≡◌, ◌≢◌, refl, List, [], ◌∷◌, Option, none, some, inr,
  arith,
}
use samsara_components.Go.Errors.{Error, newf, errorf}
use samsara_components.Go.Handles.{Call, made, used, closed, Outcome, failed, cancelled, ready}
use samsara_components.Go.Tls.{TlsConfig, Files}
use samsara_components.Grpcclient.Config.{Config, DialOption, transport_credentials}
use samsara_components.Grpcclient.Connect.{
  State, idle, connecting, connected, transient_failure, shutdown, is_ready, name_of, Library,
  wait_ready, after_wait, start, dial_opts,
}

not_ready : (s : State) → s ≢ connected → is_ready s ≡ false
not_ready idle n = refl
not_ready connecting n = refl
not_ready connected n = absurd (n refl)
not_ready transient_failure n = refl
not_ready shutdown n = refl

module _ (l : Library) (conn : ℕ) where
  -- The states of a connection, from a round on, until it is ready or the deadline passes.
  pub data Waits : (round rounds : ℕ) → Option Error → Type 0 where
    is_up : {round : ℕ} → l.state conn round ≡ connected → Waits round 0 none
    late :
        {round : ℕ}
        → l.state conn round ≢ connected
        → l.changes conn round ≡ false
        → Waits round 0 (some (newf "timed out in state %s" (name_of (l.state conn round) ∷ [])))
    turn :
        {round rounds : ℕ} {r : Option Error}
        → l.state conn round ≢ connected
        → l.changes conn round ≡ true
        → Waits (suc round) rounds r
        → Waits round (suc rounds) r

  wait_ready_from :
      {round rounds : ℕ} {r : Option Error}
      → Waits round rounds r
      → (fuel : ℕ) → rounds + 1 ≤ fuel
      → wait_ready l fuel conn round ≡ some r
  unfolding wait_ready
  wait_ready_from w zero h = absurd (omega arith)
  wait_ready_from (is_up u) (suc fuel) h = rw u refl
  wait_ready_from (late u c) (suc fuel) h = rw (not_ready _ u, c) refl
  wait_ready_from (turn u c w) (suc fuel) h =
      rw (not_ready _ u, c) (wait_ready_from w fuel (omega arith))

module _ (l : Library) (c : Config) where
  -- The end of a Start whose wait came to this: ready with its connection, or with that closed, and nil
  -- if the supervisor's context is done and the wrapped error if not.
  abbrev pub IsEnd : (conn : ℕ) → Option Error → List Call × Outcome → Type 0
  IsEnd conn none (calls, end) = (calls ≡ made conn ∷ used "connect" conn ∷ []) × (end ≡ ready conn)
  IsEnd conn (some e) (calls, end) =
      (calls ≡ made conn ∷ used "connect" conn ∷ closed conn ∷ [])
      × (l.ctx_done ≡ true → end ≡ cancelled)
      × (l.ctx_done ≡ false
          → end ≡ failed (errorf "grpc-client: connect to %q: %w" (c.target ∷ []) e))

  after_wait-IsEnd : (conn : ℕ) (r : Option Error) → IsEnd conn r (after_wait l c conn r)
  after_wait-IsEnd conn none = (refl, refl)
  after_wait-IsEnd conn (some e) = (refl, λ d. rw d refl, λ d. rw d refl)

-- If the credentials can be built and the library makes a connection, and this is found ready, or the
-- deadline passes, after n changes of its state, then with fuel for n + 1 rounds Start comes to an end of
-- its connection phase. If it was found ready, Start is ready with that connection, still open. If not,
-- the connection has been closed, and Start returns nil if the supervisor's context is done and
-- otherwise an error that names the state in which the wait timed out.
pub start_lem :
    (l : Library) (f : Files) (c : Config) (opts : List DialOption) (creds : Option TlsConfig)
    (conn rounds fuel : ℕ) (r : Option Error)
    → transport_credentials f c.tls ≡ inr creds
    → l.new_client c.target (dial_opts c opts creds) ≡ inr conn
    → Waits l conn 0 rounds r
    → rounds + 1 ≤ fuel
    → (calls : List Call) × (end : Outcome) × (start l f c opts fuel ≡ some (calls, end))
      × IsEnd l c conn r (calls, end)
unfolding start
start_lem l f c opts creds conn rounds fuel r k n w h = (
  (after_wait l c conn r).0,
  (after_wait l c conn r).1,
  rw (k, n, wait_ready_from l conn w fuel h) refl,
  after_wait-IsEnd l c conn r,
)
