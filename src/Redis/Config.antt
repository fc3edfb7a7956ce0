-- ===== src/Redis/Config.antt =====
-- The Config of redis/redis.go with its defaults, and redis/tls.go. Durations are nanoseconds.
use samsara_components.Prelude.{
  String, not, Option, none, some, ◌⊎◌, inr, ℤ, pos, is_pos, is_zero, str_eq, if◌then◌else◌,
}
use samsara_components.Go.Errors.{Error}
use samsara_components.Go.Format.{host_port}
use samsara_components.Go.Tls.{TlsConfig, Files, Texts, ClientSettings, client_config, ◌>>=◌}

pub record Config : Type 0 where
  pub host : String
  pub port : ℤ
  pub db : ℤ
  pub user : String
  pub pass : String
  pub connect_timeout : ℤ
  pub dial_timeout : ℤ
  pub read_timeout : ℤ
  pub write_timeout : ℤ
  pub pool_size : ℤ
  pub tls : ClientSettings

unfoldable pub addr : Config → String
unfolding host_port
addr c =
    host_port (if str_eq c.host "" then "localhost" else c.host)
      (if is_zero c.port then pos 6379 else c.port)

unfoldable pub connect_timeout : Config → ℤ
connect_timeout c = if is_pos c.connect_timeout then c.connect_timeout else pos 10_000_000_000

abbrev pub tls_texts : Texts
tls_texts = record {
  bad_version = "redis: unsupported TLSMinVersion %q (want \"1.2\" or \"1.3\")";
  read_ca = "redis: read TLSCAFile %q: %w";
  no_certs = "redis: TLSCAFile %q: no PEM certificates found";
  load_pair = "redis: load TLS client cert/key: %w";
  half_pair = "redis: TLSCertFile and TLSKeyFile must both be set or both empty";
}

abbrev pub server_name : Config → String
server_name c = if str_eq c.tls.server_name "" then c.host else c.tls.server_name

unfoldable pub tls_config : Files → Config → Error ⊎ Option TlsConfig
tls_config f c =
    if not c.tls.tls
    then inr none
    else (do cfg ← client_config tls_texts f c.tls (server_name c); inr (some cfg))

-- The options of go-redis that Start fills in.
pub record Options : Type 0 where
  pub addr : String
  pub username : String
  pub password : String
  pub db : ℤ
  pub dial_timeout : ℤ
  pub read_timeout : ℤ
  pub write_timeout : ℤ
  pub pool_size : ℤ
  pub tls : Option TlsConfig

unfoldable pub options : Config → Option TlsConfig → Options
unfolding addr
options c tls = record {
  addr = addr c;
  username = c.user;
  password = c.pass;
  db = c.db;
  dial_timeout = c.dial_timeout;
  read_timeout = c.read_timeout;
  write_timeout = c.write_timeout;
  pool_size = c.pool_size;
  tls = tls;
}
