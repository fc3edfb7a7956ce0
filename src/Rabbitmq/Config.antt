-- ===== src/Rabbitmq/Config.antt =====
-- The Config of rabbitmq/rabbitmq.go and its defaults. Durations are nanoseconds.
use samsara_components.Prelude.{
  String, Bool, arith, ℤ, pos, is_pos, is_zero, str_eq, if◌then◌else◌, ◌<ℤ◌,
}
use samsara_components.Go.Format.{host_port}

-- `OnOperation` is a function or nil; what it does when it is called is the environment's.
pub record Config : Type 0 where
  pub host : String
  pub port : ℤ
  pub vhost : String
  pub user : String
  pub pass : String
  pub uri : String
  pub connect_timeout : ℤ
  pub publish_timeout : ℤ
  pub on_operation : Bool

-- The fields of the `url.URL` that `uri` fills in.
pub record Url : Type 0 where
  pub scheme : String
  pub username : String
  pub password : String
  pub host : String
  pub path : String

abbrev pub or_default : String → String → String
or_default s d = if str_eq s "" then d else s

-- `url_string` is the method String of net/url's URL.
unfoldable pub uri : (Url → String) → Config → String
uri url_string c =
    if str_eq c.uri ""
    then url_string (record {
      scheme = "amqp";
      username = or_default c.user "guest";
      password = c.pass;
      host =
          host_port (or_default c.host "localhost") (if is_zero c.port then pos 5672 else c.port);
      path = or_default c.vhost "/";
    })
    else c.uri

unfoldable pub connect_timeout : Config → ℤ
connect_timeout c = if is_pos c.connect_timeout then c.connect_timeout else pos 10_000_000_000

unfoldable pub publish_timeout : Config → ℤ
publish_timeout c = if is_pos c.publish_timeout then c.publish_timeout else pos 5_000_000_000

-- Both deadlines are positive, whatever the configuration holds.
pub timeouts_pos : (c : Config) → (pos 0 <ℤ connect_timeout c) × (pos 0 <ℤ publish_timeout c)
unfolding connect_timeout publish_timeout
timeouts_pos c = ground arith
