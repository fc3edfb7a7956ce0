-- ===== src/Fiber/Swagger.antt =====
-- fiber/swagger.go: the routes that WithSwagger registers.
use Prim.Native.String.{◌++◌ as cat}
use samsara_components.Prelude.{ℕ, String, str_eq, if◌then◌else◌, List, [], ◌∷◌}
use samsara_components.Fiber.Config.{Config, path_prefix}
use samsara_components.Fiber.Routes.{Registry, register}

pub record SwaggerConfig : Type 0 where
  pub json_path : String
  pub ui_path : String

unfoldable pub ui_path : SwaggerConfig → String
ui_path s = if str_eq s.ui_path "" then "/docs" else s.ui_path

-- What the registered function does to the router of the prefix.
pub data Mount : Type 0 where
  static_file : (route file : String) → Mount
  swagger_ui : (route url : String) → Mount
  redirect : (route to : String) → Mount

module _ {Handler : Type 0} (c : Config Handler) (s : SwaggerConfig) where
  unfoldable pub json_route : String
  unfolding ui_path
  json_route = cat (ui_path s) "/swagger.json"

  unfoldable pub mounts : List Mount
  unfolding path_prefix json_route
  mounts =
      static_file json_route s.json_path
      ∷ swagger_ui (cat (ui_path s) "/*") (cat (path_prefix c) json_route)
      ∷ redirect "/" (cat (path_prefix c) (ui_path s))
      ∷ []

-- The option registers the function that makes these mounts, and nothing else; `fn` is its number.
unfoldable pub with_swagger : (fn : ℕ) → Registry → Registry
unfolding register
with_swagger fn r = register fn r
