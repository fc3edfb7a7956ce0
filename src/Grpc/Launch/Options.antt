-- ===== src/Grpc/Launch/Options.antt =====
-- Which options are in effect on a server that package grpc has launched.
use samsara_components.Prelude.{
  ℕ, suc, String, Bool, true, false, count, map, ap, arith, ◌≡◌, refl, List, [], ◌∷◌, ◌++◌, Option,
  none, some, ◌⊎◌, inl, inr, ℤ, pos, or_else,
}
use samsara_components.Go.Errors.{Error}
use samsara_components.Go.Options.{in_effect, in_effect-append}
use samsara_components.Go.Tls.{TlsConfig, Files}
use samsara_components.Grpc.Config.{
  Config, ServerOption, ServerParameters, EnforcementPolicy, max_recv_msg_size, max_send_msg_size,
  keepalive_params, enforcement_policy, creds, addr, max_recv_msg_size_bytes,
  max_send_msg_size_bytes, server_parameters, keepalive_options,
}
use samsara_components.Grpc.Tls.{Settings, tls_credentials}
use samsara_components.Grpc.Launch.{
  Call, Progress, bound, unbound, new_server, service, reflection_if, failed, serving, with_creds,
  server_opts, after_creds, after_listen, launch,
}

abbrev pub recv_of : ServerOption → Option ℤ
recv_of (max_recv_msg_size n) = some n
recv_of _ = none

abbrev pub send_of : ServerOption → Option ℤ
send_of (max_send_msg_size n) = some n
send_of _ = none

abbrev pub keepalive_of : ServerOption → Option ServerParameters
keepalive_of (keepalive_params p) = some p
keepalive_of _ = none

abbrev pub policy_of : ServerOption → Option EnforcementPolicy
policy_of (enforcement_policy p) = some p
policy_of _ = none

abbrev pub creds_of : ServerOption → Option TlsConfig
creds_of (creds cfg) = some cfg
creds_of _ = none

-- The options of a server that was made.
abbrev pub options_of : List Call → List ServerOption
options_of [] = []
options_of (new_server opts ∷ calls) = opts
options_of (_ ∷ calls) = options_of calls

-- What the component's own options put in effect, whatever the caller's are.
pub record Enforced (c : Config) (opts : List ServerOption) (tls : Option TlsConfig)
    (all : List ServerOption) : Type 0 where
  pub recv : in_effect recv_of all ≡ some (max_recv_msg_size_bytes c)
  pub send : in_effect send_of all ≡ some (max_send_msg_size_bytes c)
  pub keepalive : in_effect keepalive_of all ≡ some (server_parameters c)
  pub policy :
      in_effect policy_of all
      ≡ some (record { min_time = pos 5_000_000_000; permit_without_stream = true })
  pub credentials : in_effect creds_of all ≡ or_else tls (in_effect creds_of opts)

module _ (c : Config) (opts : List ServerOption) where
  at_end :
      {B : Type 0} (f : ServerOption → Option B) (tls : Option TlsConfig)
      → in_effect f (server_opts c opts tls)
        ≡ or_else
            (in_effect f (with_creds tls))
            (or_else (in_effect f (keepalive_options c)) (in_effect f opts))
  unfolding server_opts
  at_end f tls =
      rw
        (
          in_effect-append f (opts ++ keepalive_options c) (with_creds tls),
          in_effect-append f opts (keepalive_options c),
        )
        refl

  server_opts-Enforced : (tls : Option TlsConfig) → Enforced c opts tls (server_opts c opts tls)
  unfolding keepalive_options
  server_opts-Enforced none = record {
    recv = at_end recv_of none;
    send = at_end send_of none;
    keepalive = at_end keepalive_of none;
    policy = at_end policy_of none;
    credentials = at_end creds_of none;
  }
  server_opts-Enforced (some cfg) = record {
    recv = at_end recv_of (some cfg);
    send = at_end send_of (some cfg);
    keepalive = at_end keepalive_of (some cfg);
    policy = at_end policy_of (some cfg);
    credentials = at_end creds_of (some cfg);
  }

abbrev pub is_bound : Call → Bool
is_bound (bound ln) = true
is_bound _ = false

abbrev pub is_unbound : Call → Bool
is_unbound (unbound ln) = true
is_unbound _ = false

-- The caller's functions that were called, in order.
abbrev pub services : List Call → List ℕ
services [] = []
services (service fn ∷ calls) = fn ∷ services calls
services (_ ∷ calls) = services calls

services_of : (regs : List ℕ) → services (map service regs) ≡ regs
services_of [] = refl
services_of (fn ∷ regs) = ap (λ fns. fn ∷ fns) (services_of regs)

unbound_in :
    (regs : List ℕ)
    → (count is_bound (map service regs) ≡ 0) × (count is_unbound (map service regs) ≡ 0)
unbound_in [] = (refl, refl)
unbound_in (fn ∷ regs) = unbound_in regs

-- How a launch ends: it fails, with every listener that it bound closed again; or it serves on the one
-- that it bound, with a server under these credentials on which the caller's functions have been
-- called.
abbrev pub IsLaunched :
    (c : Config) (opts : List ServerOption) (regs : List ℕ) (r : Error ⊎ Option TlsConfig)
    → List Call × Progress
    → Type 0
IsLaunched c opts regs r (calls, failed e) = count is_bound calls ≡ count is_unbound calls
IsLaunched c opts regs r (calls, serving ln) =
    (count is_bound calls ≡ 1)
    × (count is_unbound calls ≡ 0)
    × (services calls ≡ regs)
    × (tls : Option TlsConfig) × (r ≡ inr tls)
    × Enforced c opts tls (options_of calls)

module _ (c : Config) (opts : List ServerOption) (regs : List ℕ) where
  reflected :
      (b : Bool)
      → (count is_bound (reflection_if b ++ map service regs) ≡ 0)
        × (count is_unbound (reflection_if b ++ map service regs) ≡ 0)
        × (services (reflection_if b ++ map service regs) ≡ regs)
  reflected true = ((unbound_in regs).0, (unbound_in regs).1, services_of regs)
  reflected false = ((unbound_in regs).0, (unbound_in regs).1, services_of regs)

  creds-IsLaunched :
      (ln : ℕ) (r : Error ⊎ Option TlsConfig)
      → IsLaunched c opts regs r (after_creds c opts regs ln r)
  creds-IsLaunched ln (inl e) = omega arith
  creds-IsLaunched ln (inr tls) =
      let done = reflected c.enable_reflection in
      (ap suc done.0, done.1, done.2, tls, refl, server_opts-Enforced c opts tls)

  listen-IsLaunched :
      (f : Files) (s : Settings) (r : Error ⊎ ℕ)
      → IsLaunched c opts regs (tls_credentials f s) (after_listen c opts regs f s r)
  listen-IsLaunched f s (inl e) = omega arith
  listen-IsLaunched f s (inr ln) = creds-IsLaunched ln (tls_credentials f s)

  -- A Start that fails before it serves, on the listener or on the TLS settings, leaves no listener open.
  -- One that gets to serve holds the one listener that it bound, and has called every registered function
  -- once and in order. Whatever options the caller has added, the limits of its server on messages, its
  -- keepalive parameters and the policy on its clients' pings are the component's; and so are its
  -- credentials, if TLS is on.
  pub launch_lem :
      (listen : String → Error ⊎ ℕ) (f : Files) (s : Settings)
      → IsLaunched c opts regs (tls_credentials f s) (launch c opts regs listen f s)
  unfolding launch
  launch_lem listen f s = listen-IsLaunched f s (listen (addr c))
