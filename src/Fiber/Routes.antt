-- ===== src/Fiber/Routes.antt =====
-- fiber/routes.go, fiber/helpers.go, and what Start of fiber/fiber.go installs on the app, in order.
pub mod Order
use samsara_components.Prelude.{
  ℕ, String, Bool, true, false, ◌&&◌, not, ◌≡◌, List, [], ◌∷◌, ◌++◌, map, Option, none, some,
  str_eq, if◌then◌else◌,
}
use samsara_components.Fiber.Config.{
  Config, AppConfig, app_config, logger_format, cors_origins, cors_methods, cors_headers,
  security_headers, path_prefix,
}

-- A registered function or a middleware argument is known by its number.
pub record Registry : Type 0 where
  pub routes : List ℕ
  pub middleware : List (List ℕ)

unfoldable pub register : ℕ → Registry → Registry
register fn r = record r { routes = r.routes ++ fn ∷ [] }

-- `Use` with no argument does nothing.
unfoldable pub use_middleware : List ℕ → Registry → Registry
use_middleware [] r = r
use_middleware (arg ∷ args) r = record r { middleware = r.middleware ++ (arg ∷ args) ∷ [] }

-- A call on the app, or on its root group, while Start builds it.
pub data Layer : Type 0 where
  new_app : AppConfig → Layer
  recovery : Layer
  cors : (origins methods headers : List String) → Layer
  security : (headers : List (String × String)) → Layer
  compression : (next : Option ℕ) → Layer
  caller : (args : List ℕ) → Layer
  group : (prefix : String) → Layer
  health_route : Layer
  request_log : (format : String) → Layer
  domain : (fn : ℕ) → Layer

-- The headers that securityHeadersMiddleware sets on every response before it passes the request on.
abbrev pub header_values : List (String × String)
header_values =
    ("Strict-Transport-Security", "max-age=63072000; includeSubDomains; preload")
    ∷ ("X-Frame-Options", "DENY")
    ∷ ("Cross-Origin-Opener-Policy", "same-origin")
    ∷ ("Cross-Origin-Embedder-Policy", "require-corp")
    ∷ []

module _ {Handler : Type 0} (c : Config Handler) where
  abbrev pub only_if : Bool → Layer → List Layer
  only_if true l = l ∷ []
  only_if false l = []

  -- What is installed before the caller's middleware, and between that and the domain routes.
  unfoldable pub built_in : List Layer
  unfolding app_config cors_origins cors_methods cors_headers security_headers
  built_in =
      new_app (app_config c)
        ∷ recovery
        ∷ cors (cors_origins c) (cors_methods c) (cors_headers c)
        ∷ only_if (security_headers c) (security header_values)
      ++ only_if (not c.disable_compress) (compression c.compress_next)

  unfoldable pub root_group : List Layer
  unfolding path_prefix logger_format
  root_group =
      group (path_prefix c)
      ∷ health_route
      ∷ only_if (not (str_eq c.logger_format "-")) (request_log (logger_format c))

  unfoldable pub build : Registry → List Layer
  unfolding built_in root_group
  build r = built_in ++ map caller r.middleware ++ root_group ++ map domain r.routes

pub record Route : Type 0 where
  pub method : String
  pub path : String

-- The function that ExcludeRoutes returns: true means that the middleware is skipped.
unfoldable pub exclude_routes : List Route → (method path : String) → Bool
exclude_routes [] method path = true
exclude_routes (r ∷ routes) method path =
    let rest = exclude_routes routes method path in
    if str_eq method r.method && str_eq path r.path then false else rest

-- `Get` of X-Forwarded-For, and the address of the connection.
unfoldable pub real_ip : (xff ip : String) → String
real_ip xff ip = if str_eq xff "" then ip else xff
