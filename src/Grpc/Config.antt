-- ===== src/Grpc/Config.antt =====
-- grpc/config.go: the configuration and its defaults. Durations are nanoseconds; an `int` has 64 bits.
use samsara_components.Prelude.{
  ℕ, String, List, Bool, true, Option, none, some, ℤ, pos, is_pos, is_zero, str_eq, if◌then◌else◌,
  scale, int64, ◌∷◌, [],
}
use samsara_components.Go.Errors.{Error, newf}
use samsara_components.Go.Format.{host_port}
use samsara_components.Go.Tls.{TlsConfig}

pub record Config : Type 0 where
  pub host : String
  pub port : ℤ
  pub enable_reflection : Bool
  pub max_recv_msg_size_mb : ℤ
  pub max_send_msg_size_mb : ℤ
  pub keepalive_time : ℤ
  pub keepalive_timeout : ℤ
  pub max_connection_idle : ℤ
  pub stop_timeout : ℤ
  pub max_connection_age : ℤ

unfoldable pub addr : Config → String
unfolding host_port
addr c =
    host_port (if str_eq c.host "" then "0.0.0.0" else c.host)
      (if is_zero c.port then pos 9090 else c.port)

unfoldable pub max_recv_msg_size_bytes : Config → ℤ
unfolding int64 scale
max_recv_msg_size_bytes c =
    if is_pos c.max_recv_msg_size_mb
    then int64 (scale c.max_recv_msg_size_mb 1_048_576)
    else pos 4_194_304

unfoldable pub max_send_msg_size_bytes : Config → ℤ
unfolding int64 scale
max_send_msg_size_bytes c =
    if is_pos c.max_send_msg_size_mb
    then int64 (scale c.max_send_msg_size_mb 1_048_576)
    else pos 4_194_304

unfoldable pub stop_timeout : Config → ℤ
stop_timeout c = if is_pos c.stop_timeout then c.stop_timeout else pos 10_000_000_000

unfoldable pub keepalive_time : Config → ℤ
keepalive_time c = if is_pos c.keepalive_time then c.keepalive_time else pos 120_000_000_000

unfoldable pub keepalive_timeout : Config → ℤ
keepalive_timeout c = if is_pos c.keepalive_timeout then c.keepalive_timeout else pos 20_000_000_000

unfoldable pub max_connection_idle : Config → ℤ
max_connection_idle c =
    if is_pos c.max_connection_idle then c.max_connection_idle else pos 300_000_000_000

-- `keepalive.ServerParameters`, whose zero fields leave the library's defaults.
pub record ServerParameters : Type 0 where
  pub time : ℤ
  pub timeout : ℤ
  pub max_connection_idle : ℤ
  pub max_connection_age : ℤ
  pub max_connection_age_grace : ℤ

-- `keepalive.EnforcementPolicy`
pub record EnforcementPolicy : Type 0 where
  pub min_time : ℤ
  pub permit_without_stream : Bool

-- A `grpclib.ServerOption`; `extra` is any that the component does not use, such as an interceptor.
pub data ServerOption : Type 0 where
  max_recv_msg_size max_send_msg_size : ℤ → ServerOption
  keepalive_params : ServerParameters → ServerOption
  enforcement_policy : EnforcementPolicy → ServerOption
  creds : TlsConfig → ServerOption
  extra : ℕ → ServerOption

unfoldable pub server_parameters : Config → ServerParameters
unfolding keepalive_time keepalive_timeout max_connection_idle
server_parameters c =
    let kp : ServerParameters = record {
      time = keepalive_time c;
      timeout = keepalive_timeout c;
      max_connection_idle = max_connection_idle c;
      max_connection_age = pos 0;
      max_connection_age_grace = pos 0;
    } in
    if is_pos c.max_connection_age
    then record kp {
      max_connection_age = c.max_connection_age;
      max_connection_age_grace = pos 5_000_000_000;
    }
    else kp

unfoldable pub keepalive_options : Config → List ServerOption
unfolding server_parameters max_recv_msg_size_bytes max_send_msg_size_bytes
keepalive_options c =
    max_recv_msg_size (max_recv_msg_size_bytes c)
    ∷ max_send_msg_size (max_send_msg_size_bytes c)
    ∷ keepalive_params (server_parameters c)
    ∷ enforcement_policy (record { min_time = pos 5_000_000_000; permit_without_stream = true })
    ∷ []

-- Health, on the flag that Start and Stop keep.
unfoldable pub health : Config → (serving : Bool) → Option Error
unfolding addr
health c serving =
    if serving then none else some (newf "grpc: server is not serving on %s" (addr c ∷ []))
