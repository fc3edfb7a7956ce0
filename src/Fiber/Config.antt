-- ===== src/Fiber/Config.antt =====
-- The Config of fiber/fiber.go and its defaults. Durations are nanoseconds; an `int` has 64 bits.
use samsara_components.Prelude.{
  ℕ, String, Bool, true, ◌≡◌, refl, arith, ◌<◌, ◌*◌, List, [], ◌∷◌, Option, none, some, ℤ, pos,
  is_pos, is_zero, str_eq, if◌then◌else◌, scale, int64, int64_small,
}
use samsara_components.Go.Format.{host_port}

-- `Handler` is the type of gofiber's error handlers, `custom` the caller's, if any. The predicate
-- `compress_next` and the trusted proxies, values of gofiber's types, are known by their numbers.
pub record Config (Handler : Type 0) : Type 0 where
  pub host : String
  pub port : ℤ
  pub path_prefix : String
  pub body_limit_mb : ℤ
  pub cors_allow_origins : List String
  pub cors_allow_methods : List String
  pub cors_allow_headers : List String
  pub read_timeout : ℤ
  pub write_timeout : ℤ
  pub idle_timeout : ℤ
  pub shutdown_timeout : ℤ
  pub health_timeout : ℤ
  pub read_buffer_size : ℤ
  pub custom : Option Handler
  pub logger_format : String
  pub enable_security_headers : Option Bool
  pub compress_next : Option ℕ
  pub disable_compress : Bool
  pub trust_proxy : Bool
  pub trust_proxy_config : ℕ
  pub proxy_header : String
  pub enable_ip_validation : Bool

-- `if len(xs) > 0 { return xs }`
abbrev pub or_list : List String → List String → List String
or_list [] d = d
or_list (x ∷ xs) d = x ∷ xs

abbrev pub or_true : Option Bool → Bool
or_true none = true
or_true (some b) = b

-- What `gf.New` is given, but for the error handler.
pub record AppConfig : Type 0 where
  pub body_limit : ℤ
  pub read_buffer_size : ℤ
  pub read_timeout : ℤ
  pub write_timeout : ℤ
  pub idle_timeout : ℤ
  pub trust_proxy : Bool
  pub trust_proxy_config : ℕ
  pub proxy_header : String
  pub enable_ip_validation : Bool

module _ {Handler : Type 0} where
  unfoldable pub addr : Config Handler → String
  unfolding host_port
  addr c =
      host_port (if str_eq c.host "" then "0.0.0.0" else c.host)
        (if is_zero c.port then pos 8080 else c.port)

  unfoldable pub path_prefix : Config Handler → String
  path_prefix c = if str_eq c.path_prefix "" then "/api/v1" else c.path_prefix

  unfoldable pub shutdown_timeout : Config Handler → ℤ
  shutdown_timeout c = if is_pos c.shutdown_timeout then c.shutdown_timeout else pos 10_000_000_000

  unfoldable pub health_timeout : Config Handler → ℤ
  health_timeout c = if is_pos c.health_timeout then c.health_timeout else pos 5_000_000_000

  unfoldable pub body_limit_bytes : Config Handler → ℤ
  unfolding int64 scale
  body_limit_bytes c =
      if is_pos c.body_limit_mb then int64 (scale c.body_limit_mb 1_048_576) else pos 4_194_304

  unfoldable pub cors_origins : Config Handler → List String
  cors_origins c = or_list c.cors_allow_origins ("*" ∷ [])

  unfoldable pub cors_methods : Config Handler → List String
  cors_methods c =
      or_list c.cors_allow_methods ("GET" ∷ "POST" ∷ "PUT" ∷ "PATCH" ∷ "DELETE" ∷ "OPTIONS" ∷ [])

  unfoldable pub cors_headers : Config Handler → List String
  cors_headers c = or_list c.cors_allow_headers ("*" ∷ [])

  unfoldable pub logger_format : Config Handler → String
  logger_format c =
      if str_eq c.logger_format ""
      then "{\"time\":\"${time}\",\"ip\":\"${ip}\",\"x-forwarded-for\":\"${reqHeader:X-Forwarded-For}\",\"status\":${status},\"latency\":\"${latency}\",\"method\":\"${method}\",\"path\":\"${path}\",\"error\":\"${error}\"}\n"
      else c.logger_format

  unfoldable pub security_headers : Config Handler → Bool
  security_headers c = or_true c.enable_security_headers

  -- `standard` is DefaultErrorHandler.
  unfoldable pub error_handler : (standard : Handler) → Config Handler → Handler
  error_handler standard c = elim c.custom [ none ↦ standard | some handler ↦ handler ]

  unfoldable pub app_config : Config Handler → AppConfig
  unfolding body_limit_bytes
  app_config c = record {
    body_limit = body_limit_bytes c;
    read_buffer_size = c.read_buffer_size;
    read_timeout = c.read_timeout;
    write_timeout = c.write_timeout;
    idle_timeout = c.idle_timeout;
    trust_proxy = c.trust_proxy;
    trust_proxy_config = c.trust_proxy_config;
    proxy_header = c.proxy_header;
    enable_ip_validation = c.enable_ip_validation;
  }

-- A limit of up to 2^43 - 1 MB is met to the byte, and without a positive one the limit is 4 MB.
pub body_limit_lem :
    {Handler : Type 0} (c : Config Handler) (mb : ℕ)
    → c.body_limit_mb ≡ pos mb
    → mb < 8_796_093_022_208
    → body_limit_bytes c ≡ (if is_pos (pos mb) then pos (mb * 1_048_576) else pos 4_194_304)
unfolding body_limit_bytes scale
body_limit_lem c mb e h = rw (e, int64_small (mb * 1_048_576) (omega arith)) refl
