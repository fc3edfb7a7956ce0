-- ===== src/Tests/Settings.antt =====
-- Configurations of packages redis, grpc, fiber and rabbitmq.
use samsara_components.Prelude.{
  true, false, ◌≡◌, ◌↔◌, [], ◌∷◌, none, some, inr, ℤ, pos, ◌==◌, if◌then◌else◌,
}
use samsara_components.Go.Tls.{Files}
use samsara_components.Go.Tls.Client.{IsOutcome, asked}
use samsara_components.Redis.Config as Redis
use samsara_components.Redis.Config.{tls_config, server_name}
use samsara_components.Redis.Tls.{tls_config-IsOutcome}
use samsara_components.Grpc.Config as Grpc
use samsara_components.Grpc.Config.{keepalive_params}
use samsara_components.Grpc.Tls.{Settings, tls_credentials, wanted, tls_credentials-IsOutcome}
use samsara_components.Grpc.Launch.{launch}
use samsara_components.Grpc.Launch.Options.{IsLaunched, launch_lem}
use samsara_components.Fiber.Config as Fiber
use samsara_components.Fiber.Fault.{
  Tree, node, nil, cons, Kinds, errors, first, default_error_handler, default_error_handler_lem,
}
use samsara_components.Fiber.Routes.{build}
use samsara_components.Fiber.Routes.Order.{setup, empty, registers, uses, stack, build-setup}
use samsara_components.Rabbitmq.Component.Dial.{
  race_dial, timed_out, IsTidy, Late, race_dial-IsTidy_iff,
}

abbrev pub all_files : Files
all_files = record { read_error = λ p. none; has_certs = λ p. true; pair_error = λ c k. none }

abbrev pub cache : Redis.Config
cache = record {
  host = "cache";
  port = pos 0;
  db = pos 0;
  user = "";
  pass = "";
  connect_timeout = pos 0;
  dial_timeout = pos 0;
  read_timeout = pos 0;
  write_timeout = pos 0;
  pool_size = pos 0;
  tls = record {
    tls = true;
    ca_file = "ca.pem";
    cert_file = "";
    key_file = "";
    server_name = "";
    insecure_skip_verify = false;
    min_version = "1.3";
  };
}

tls_config-IsOutcome_example : tls_config all_files cache ≡ inr (some (asked cache.tls "cache"))
tls_config-IsOutcome_example = tls_config-IsOutcome all_files cache

abbrev server_tls : Settings
server_tls = record {
  tls = true;
  cert_file = "cert.pem";
  key_file = "";
  client_ca_file = "";
  min_version = "";
}

tls_credentials-IsOutcome_example :
    IsOutcome false (wanted server_tls) (tls_credentials all_files server_tls)
tls_credentials-IsOutcome_example = tls_credentials-IsOutcome all_files server_tls

abbrev rpc : Grpc.Config
rpc = record {
  host = "";
  port = pos 0;
  enable_reflection = true;
  max_recv_msg_size_mb = pos 0;
  max_send_msg_size_mb = pos 0;
  keepalive_time = pos 0;
  keepalive_timeout = pos 0;
  max_connection_idle = pos 0;
  stop_timeout = pos 0;
  max_connection_age = pos 0;
}

launch_lem_example :
    IsLaunched rpc
      (Grpc.max_recv_msg_size (pos 1) ∷ [])
      (7 ∷ [])
      (tls_credentials all_files (record server_tls { tls = false }))
      (launch rpc
        (Grpc.max_recv_msg_size (pos 1) ∷ [])
        (7 ∷ [])
        (λ addr. inr 3)
        all_files
        (record server_tls { tls = false }))
launch_lem_example =
    launch_lem rpc (Grpc.max_recv_msg_size (pos 1) ∷ []) (7 ∷ []) (λ addr. inr 3) all_files
      (record server_tls { tls = false })

abbrev web : Fiber.Config (Unit {0})
web = record {
  host = "";
  port = pos 0;
  path_prefix = "";
  body_limit_mb = pos 0;
  cors_allow_origins = [];
  cors_allow_methods = [];
  cors_allow_headers = [];
  read_timeout = pos 0;
  write_timeout = pos 0;
  idle_timeout = pos 0;
  shutdown_timeout = pos 0;
  health_timeout = pos 0;
  read_buffer_size = pos 0;
  custom = none;
  logger_format = "-";
  enable_security_headers = some false;
  compress_next = none;
  disable_compress = true;
  trust_proxy = false;
  trust_proxy_config = 0;
  proxy_header = "";
  enable_ip_validation = false;
}

build-setup_example :
    build web (setup (registers 1 ∷ uses (5 ∷ []) ∷ uses [] ∷ registers 2 ∷ []) empty)
    ≡ stack web ((5 ∷ []) ∷ []) (1 ∷ 2 ∷ [])
build-setup_example = build-setup web (registers 1 ∷ uses (5 ∷ []) ∷ uses [] ∷ registers 2 ∷ [])

-- Error 4 knows its status.
abbrev kinds : Kinds
kinds = record {
  fiber_code = λ e. none;
  status_code = λ e. if e == 4 then some (pos 404) else none;
  text = λ e. "missing";
}

-- An error that wraps two, of which the second wraps error 4.
abbrev wrapped_twice : Tree
wrapped_twice = node 1 (cons (node 2 nil) (cons (node 3 (cons (node 4 nil) nil)) nil))

default_error_handler_lem_example :
    let r = default_error_handler kinds wrapped_twice in
    ((code : ℤ) → first kinds.fiber_code (errors wrapped_twice) ≡ some code → r.status ≡ code)
    × ((code : ℤ)
        → first kinds.fiber_code (errors wrapped_twice) ≡ none
        → first kinds.status_code (errors wrapped_twice) ≡ some code
        → r.status ≡ code)
    × (first kinds.fiber_code (errors wrapped_twice) ≡ none
        → first kinds.status_code (errors wrapped_twice) ≡ none
        → r.status ≡ pos 500)
    × (r.error ≡ "missing")
default_error_handler_lem_example = default_error_handler_lem kinds wrapped_twice

race_dial-IsTidy_iff_example :
    IsTidy (race_dial "10s" (λ conn. inr 9) timed_out (inr 8)) ↔ ¬ Late timed_out (inr 8)
race_dial-IsTidy_iff_example = race_dial-IsTidy_iff "10s" (λ conn. inr 9) timed_out (inr 8)
