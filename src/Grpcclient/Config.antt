-- ===== src/Grpcclient/Config.antt =====
-- grpcclient/config.go and grpcclient/tls.go: the configuration, its defaults and the credentials.
-- Durations are nanoseconds; an `int` has 64 bits.
use samsara_components.Prelude.{
  ℕ, String, List, [], ◌∷◌, Bool, true, not, Option, none, some, ◌⊎◌, inr, ℤ, pos, is_pos,
  if◌then◌else◌, scale, int64,
}
use samsara_components.Go.Errors.{Error}
use samsara_components.Go.Tls.{TlsConfig, Files, Texts, ClientSettings, client_config, ◌>>=◌}

pub record Config : Type 0 where
  pub target : String
  pub connect_timeout : ℤ
  pub max_recv_msg_size_mb : ℤ
  pub max_send_msg_size_mb : ℤ
  pub keepalive_time : ℤ
  pub keepalive_timeout : ℤ
  pub keepalive_permit_without_stream : Option Bool
  pub tls : ClientSettings

unfoldable pub connect_timeout : Config → ℤ
connect_timeout c = if is_pos c.connect_timeout then c.connect_timeout else pos 10_000_000_000

unfoldable pub max_recv_msg_size_bytes : Config → ℤ
unfolding int64 scale
max_recv_msg_size_bytes c =
    if is_pos c.max_recv_msg_size_mb
    then int64 (scale c.max_recv_msg_size_mb 1_048_576)
    else pos 4_194_304

unfoldable pub max_send_msg_size_bytes : Config → ℤ
unfolding int64 scale
max_send_msg_size_bytes c =
    if is_pos c.max_send_msg_size_mb
    then int64 (scale c.max_send_msg_size_mb 1_048_576)
    else pos 4_194_304

unfoldable pub keepalive_time : Config → ℤ
keepalive_time c = if is_pos c.keepalive_time then c.keepalive_time else pos 30_000_000_000

unfoldable pub keepalive_timeout : Config → ℤ
keepalive_timeout c = if is_pos c.keepalive_timeout then c.keepalive_timeout else pos 10_000_000_000

abbrev pub or_true : Option Bool → Bool
or_true none = true
or_true (some b) = b

unfoldable pub keepalive_permit_without_stream : Config → Bool
keepalive_permit_without_stream c = or_true c.keepalive_permit_without_stream

-- `keepalive.ClientParameters`
pub record ClientParameters : Type 0 where
  pub time : ℤ
  pub timeout : ℤ
  pub permit_without_stream : Bool

-- A `grpclib.CallOption` and a `grpclib.DialOption`; `extra_call` and `extra` are any that the component
-- does not use, such as an interceptor. Plaintext credentials are `none`.
pub data CallOption : Type 0 where
  max_call_recv_msg_size max_call_send_msg_size : ℤ → CallOption
  extra_call : ℕ → CallOption

pub data DialOption : Type 0 where
  credentials : Option TlsConfig → DialOption
  default_call_options : List CallOption → DialOption
  keepalive_params : ClientParameters → DialOption
  extra : ℕ → DialOption

unfoldable pub client_parameters : Config → ClientParameters
unfolding keepalive_time keepalive_timeout keepalive_permit_without_stream
client_parameters c = record {
  time = keepalive_time c;
  timeout = keepalive_timeout c;
  permit_without_stream = keepalive_permit_without_stream c;
}

unfoldable pub dial_options : Config → List DialOption
unfolding max_recv_msg_size_bytes max_send_msg_size_bytes client_parameters
dial_options c =
    default_call_options (
      max_call_recv_msg_size (max_recv_msg_size_bytes c)
      ∷ max_call_send_msg_size (max_send_msg_size_bytes c)
      ∷ [])
    ∷ keepalive_params (client_parameters c)
    ∷ []

abbrev pub tls_texts : Texts
tls_texts = record {
  bad_version = "grpc-client: unsupported TLSMinVersion %q (want \"1.2\" or \"1.3\")";
  read_ca = "grpc-client: read TLSCAFile %q: %w";
  no_certs = "grpc-client: TLSCAFile %q: no PEM certificates found";
  load_pair = "grpc-client: load TLS client cert/key: %w";
  half_pair = "grpc-client: TLSCertFile and TLSKeyFile must both be set or both empty";
}

unfoldable pub transport_credentials : Files → ClientSettings → Error ⊎ Option TlsConfig
transport_credentials f s =
    if not s.tls
    then inr none
    else (do cfg ← client_config tls_texts f s s.server_name; inr (some cfg))
