-- ===== src/Redis/Connect.antt =====
-- What Start of redis/redis.go does up to ready, in one thread, and Health.
use samsara_components.Prelude.{ℕ, List, [], ◌∷◌, Option, none, some, ◌⊎◌, inl, inr, arith}
use samsara_components.Go.Setup.{Setup, new_setup}
use samsara_components.Go.Errors.{Error, errorf}
use samsara_components.Go.Handles.{Call, made, used, closed, Outcome, failed, ready, IsTidy}
use samsara_components.Go.Options.{apply_all}
use samsara_components.Go.Tls.{TlsConfig, Files}
use samsara_components.Redis.Config.{Config, Options, tls_config, options}
use samsara_components.Redis.Observe.{err_not_ready}

-- go-redis: the client that it makes of the options, after the caller's have been applied, and its
-- answer to a PING.
pub record Library : Type 0 where
  pub new_client : Options → ℕ
  pub ping : (client : ℕ) → Option Error

-- What New makes; its options are those of the component, not of the driver.
unfoldable pub new :
    Config
    → List (Setup Config (Options → Options) → Setup Config (Options → Options))
    → Setup Config (Options → Options)
unfolding new_setup
new = new_setup "redis"

-- What the client is made with: the component's own settings, with the caller's options.
unfoldable pub client_options : Config → List (Options → Options) → Option TlsConfig → Options
unfolding options apply_all
client_options c opts tls = apply_all opts (options c tls)

module _ (l : Library) where
  abbrev pub after_ping : (client : ℕ) → Option Error → List Call × Outcome
  after_ping h none = (made h ∷ used "ping" h ∷ [], ready h)
  after_ping h (some e) =
      (made h ∷ used "ping" h ∷ closed h ∷ [], failed (errorf "redis: ping failed: %w" [] e))

  abbrev pub after_tls :
      Config → (opts : List (Options → Options)) → Error ⊎ Option TlsConfig → List Call × Outcome
  after_tls c opts (inl e) = ([], failed e)
  after_tls c opts (inr tls) =
      let h = l.new_client (client_options c opts tls) in after_ping h (l.ping h)

  unfoldable pub start : Files → Config → (opts : List (Options → Options)) → List Call × Outcome
  unfolding tls_config client_options
  start f c opts = after_tls c opts (tls_config f c)

  abbrev pub ping_result : Option Error → Option Error
  ping_result none = none
  ping_result (some e) = some (errorf "redis: ping: %w" [] e)

  unfoldable pub health : (client : Option ℕ) → Option Error
  health none = some err_not_ready
  health (some h) = ping_result (l.ping h)

  after_ping-IsTidy : (h : ℕ) (r : Option Error) → IsTidy (after_ping h r)
  after_ping-IsTidy h none = (omega arith, omega arith)
  after_ping-IsTidy h (some e) = omega arith

  after_tls-IsTidy :
      (c : Config) (opts : List (Options → Options)) (r : Error ⊎ Option TlsConfig)
      → IsTidy (after_tls c opts r)
  after_tls-IsTidy c opts (inl e) = omega arith
  after_tls-IsTidy c opts (inr tls) =
      let h = l.new_client (client_options c opts tls) in after_ping-IsTidy h (l.ping h)

  -- A Start that fails, on its TLS settings or on the ping, leaves no client open; one that gets to ready
  -- holds the only client that it made.
  pub start-IsTidy :
      (f : Files) (c : Config) (opts : List (Options → Options)) → IsTidy (start f c opts)
  unfolding start
  start-IsTidy f c opts = after_tls-IsTidy c opts (tls_config f c)
