-- ===== src/Postgresql/Config.antt =====
-- The Config of postgresql/postgresql.go and its defaults. Durations are nanoseconds.
use Prim.Native.String.{◌++◌ as cat}
use samsara_components.Prelude.{String, ℤ, pos, is_pos, is_zero, str_eq, if◌then◌else◌}
use samsara_components.Go.Format.{host_port}

pub record Config : Type 0 where
  pub host : String
  pub port : ℤ
  pub name : String
  pub user : String
  pub pass : String
  pub ssl_mode : String
  pub uri : String
  pub connect_timeout : ℤ
  pub max_conns : ℤ
  pub min_conns : ℤ

-- The fields of the `url.URL` that `dsn` fills in.
pub record Url : Type 0 where
  pub scheme : String
  pub username : String
  pub password : String
  pub host : String
  pub path : String
  pub raw_query : String

abbrev pub or_default : String → String → String
or_default s d = if str_eq s "" then d else s

-- `url_string` is the method String of net/url's URL.
unfoldable pub dsn : (Url → String) → Config → String
unfolding host_port
dsn url_string c =
    if str_eq c.uri ""
    then url_string (record {
      scheme = "postgres";
      username = or_default c.user "postgres";
      password = c.pass;
      host =
          host_port (or_default c.host "localhost") (if is_zero c.port then pos 5432 else c.port);
      path = or_default c.name "postgres";
      raw_query = cat "sslmode=" (or_default c.ssl_mode "disable");
    })
    else c.uri

unfoldable pub connect_timeout : Config → ℤ
connect_timeout c = if is_pos c.connect_timeout then c.connect_timeout else pos 10_000_000_000
