-- ===== src/Grpcclient/Connect.antt =====
-- grpcclient/grpcclient.go: Start up to ready, with the wait for the connection, and Health.
pub mod Wait
pub mod Options
use samsara_components.Prelude.{
  ℕ, zero, suc, String, Bool, true, false, List, [], ◌∷◌, ◌++◌, Option, none, some, ◌⊎◌, inl, inr,
  if◌then◌else◌,
}
use samsara_components.Go.Setup.{Setup, new_setup}
use samsara_components.Go.Errors.{Error, newf, errorf}
use samsara_components.Go.Handles.{Call, made, used, closed, Outcome, failed, cancelled, ready}
use samsara_components.Go.Tls.{TlsConfig, Files}
use samsara_components.Grpcclient.Config.{
  Config, DialOption, credentials, dial_options, transport_credentials,
}

-- What New makes; its options are those of the component, not of the driver.
unfoldable pub new :
    Config → List (Setup Config DialOption → Setup Config DialOption) → Setup Config DialOption
unfolding new_setup
new = new_setup "grpcclient"

-- The connectivity states of gRPC, and their names.
pub data State : Type 0 where
  idle connecting connected transient_failure shutdown : State

abbrev pub is_ready : State → Bool
is_ready connected = true
is_ready _ = false

abbrev pub name_of : State → String
name_of idle = "IDLE"
name_of connecting = "CONNECTING"
name_of connected = "READY"
name_of transient_failure = "TRANSIENT_FAILURE"
name_of shutdown = "SHUTDOWN"

-- The gRPC library, as it answers one Start: the new connection or an error; the state that each round of
-- the wait finds, and whether it changes before the deadline; and whether the parent context is done
-- when the wait has failed.
pub record Library : Type 0 where
  pub new_client : (target : String) → List DialOption → Error ⊎ ℕ
  pub state : (conn round : ℕ) → State
  pub changes : (conn round : ℕ) → Bool
  pub ctx_done : Bool

-- The caller's options come last, so that they can override the component's.
unfoldable pub dial_opts : Config → (opts : List DialOption) → Option TlsConfig → List DialOption
unfolding dial_options
dial_opts c opts creds = (credentials creds ∷ dial_options c) ++ opts

module _ (l : Library) where
  -- waitReady, on fuel: the outer `none` means that the fuel ran out.
  unfoldable pub wait_ready : (fuel conn round : ℕ) → Option (Option Error)
  wait_ready zero conn round = none
  wait_ready (suc fuel) conn round =
      let rest = wait_ready fuel conn (suc round) in
      if is_ready (l.state conn round)
      then some none
      else if l.changes conn round
      then rest
      else some (some (newf "timed out in state %s" (name_of (l.state conn round) ∷ [])))

  -- What Start makes of the wait.
  abbrev pub after_wait : Config → (conn : ℕ) → Option Error → List Call × Outcome
  after_wait c conn none = (made conn ∷ used "connect" conn ∷ [], ready conn)
  after_wait c conn (some e) = (
    made conn ∷ used "connect" conn ∷ closed conn ∷ [],
    (if l.ctx_done
        then cancelled
        else failed (errorf "grpc-client: connect to %q: %w" (c.target ∷ []) e)),
  )

  abbrev pub after_loop : Config → (conn : ℕ) → Option (Option Error) → Option (List Call × Outcome)
  after_loop c conn none = none
  after_loop c conn (some r) = some (after_wait c conn r)

  abbrev pub after_new : Config → (fuel : ℕ) → Error ⊎ ℕ → Option (List Call × Outcome)
  after_new c fuel (inl e) =
      some ([], failed (errorf "grpc-client: create connection to %q: %w" (c.target ∷ []) e))
  after_new c fuel (inr conn) = after_loop c conn (wait_ready fuel conn 0)

  abbrev pub after_credentials :
      Config
      → (opts : List DialOption) → (fuel : ℕ) → Error ⊎ Option TlsConfig
      → Option (List Call × Outcome)
  after_credentials c opts fuel (inl e) = some ([], failed e)
  after_credentials c opts fuel (inr creds) =
      after_new c fuel (l.new_client c.target (dial_opts c opts creds))

  -- Start up to ready. `opts` is what AddOption has kept.
  unfoldable pub start :
      Files → Config → (opts : List DialOption) → (fuel : ℕ) → Option (List Call × Outcome)
  unfolding wait_ready dial_opts
  start f c opts fuel = after_credentials c opts fuel (transport_credentials f c.tls)

abbrev pub health_of : State → Option Error
health_of connected = none
health_of idle = none
health_of s = some (newf "grpc-client: connection state is %s" (name_of s ∷ []))

unfoldable pub health : (conn : Option ℕ) → (ℕ → State) → Option Error
health none state = some (newf "grpc-client: connection not initialised" [])
health (some conn) state = health_of (state conn)
