-- ===== src/Grpc/Launch.antt =====
-- Start of grpc/grpc.go up to the stored server: the listener, the options of the server, and what is
-- registered on it.
pub mod Options
use samsara_components.Prelude.{
  ℕ, String, Bool, true, false, List, [], ◌∷◌, ◌++◌, map, Option, none, some, ◌⊎◌, inl, inr,
}
use samsara_components.Go.Setup.{Setup, new_setup, add}
use samsara_components.Go.Errors.{Error, errorf}
use samsara_components.Go.Tls.{TlsConfig, Files}
use samsara_components.Grpc.Config.{Config, ServerOption, creds, addr, keepalive_options}
use samsara_components.Grpc.Tls.{Settings, tls_credentials}

-- The component, less what Lifecycle keeps of it: a function that the caller registers is a number.
pub record Component : Type 0 where
  pub setup : Setup Config ServerOption
  pub regs : List ℕ

unfoldable pub new :
    Config → List (Setup Config ServerOption → Setup Config ServerOption) → Component
unfolding new_setup
new c opts = record { setup = new_setup "grpc" c opts; regs = [] }

unfoldable pub register : ℕ → Component → Component
register fn c = record c { regs = c.regs ++ fn ∷ [] }

unfoldable pub add_option : ServerOption → Component → Component
unfolding add
add_option opt c = record c { setup = add opt c.setup }

-- What Start does, in order: listeners and the caller's functions are numbers.
pub data Call : Type 0 where
  bound unbound : (listener : ℕ) → Call
  new_server : List ServerOption → Call
  health_service reflection_service : Call
  service : (fn : ℕ) → Call

pub data Progress : Type 0 where
  failed : Error → Progress
  serving : (listener : ℕ) → Progress

abbrev pub with_creds : Option TlsConfig → List ServerOption
with_creds none = []
with_creds (some cfg) = creds cfg ∷ []

-- The caller's options come first, so that they cannot override the component's.
unfoldable pub server_opts :
    Config → (opts : List ServerOption) → Option TlsConfig → List ServerOption
unfolding keepalive_options
server_opts c opts tls = opts ++ keepalive_options c ++ with_creds tls

abbrev pub reflection_if : Bool → List Call
reflection_if true = reflection_service ∷ []
reflection_if false = []

-- `opts` and `regs` are what AddOption and Register have kept.
module _ (c : Config) (opts : List ServerOption) (regs : List ℕ) where
  abbrev pub after_creds : (listener : ℕ) → Error ⊎ Option TlsConfig → List Call × Progress
  after_creds ln (inl e) = (bound ln ∷ unbound ln ∷ [], failed e)
  after_creds ln (inr tls) = (
    bound ln
        ∷ new_server (server_opts c opts tls)
        ∷ health_service
        ∷ (reflection_if c.enable_reflection ++ map service regs),
    serving ln,
  )

  abbrev pub after_listen : Files → Settings → Error ⊎ ℕ → List Call × Progress
  after_listen f s (inl e) = ([], failed (errorf "grpc: listen %s: %w" (addr c ∷ []) e))
  after_listen f s (inr ln) = after_creds ln (tls_credentials f s)

  unfoldable pub launch : (listen : String → Error ⊎ ℕ) → Files → Settings → List Call × Progress
  unfolding addr tls_credentials server_opts
  launch listen f s = after_listen f s (listen (addr c))
