-- ===== src/Fiber/Routes/Order.antt =====
-- The order in which the app of package fiber is built, and the routes that ExcludeRoutes lets through.
use mathlib.Core.List.{append_assoc, append-nil}
use samsara_components.Prelude.{
  ℕ, String, Bool, true, false, not, ◌&&◌, ◌≡◌, refl, ap, List, [], ◌∷◌, ◌++◌, map, str_eq, arith,
  if◌then◌else◌, ◌↔◌, ◌∙◌, sym, eq_iff, eq_refl, Bool-cases, inl, inr,
}
use samsara_components.Fiber.Config.{
  Config, app_config, logger_format, cors_origins, cors_methods, cors_headers, security_headers,
  path_prefix,
}
use samsara_components.Fiber.Routes.{
  Registry, register, use_middleware, Layer, new_app, recovery, cors, security, compression, group,
  health_route, request_log, header_values, caller, domain, built_in, root_group, build, Route,
  exclude_routes,
}

-- The calls that a program makes of Register and Use.
pub data Call : Type 0 where
  registers : (fn : ℕ) → Call
  uses : (args : List ℕ) → Call

abbrev pub apply : Call → Registry → Registry
apply (registers fn) r = register fn r
apply (uses args) r = use_middleware args r

abbrev pub setup : List Call → Registry → Registry
setup [] r = r
setup (call ∷ calls) r = setup calls (apply call r)

-- The functions registered, and the arguments of each Use that had any, in order.
abbrev pub fns : List Call → List ℕ
fns [] = []
fns (registers fn ∷ calls) = fn ∷ fns calls
fns (uses args ∷ calls) = fns calls

abbrev pub groups : List Call → List (List ℕ)
groups [] = []
groups (registers fn ∷ calls) = groups calls
groups (uses [] ∷ calls) = groups calls
groups (uses (arg ∷ args) ∷ calls) = (arg ∷ args) ∷ groups calls

setup_routes : (calls : List Call) (r : Registry) → (setup calls r).routes ≡ r.routes ++ fns calls
unfolding register use_middleware
setup_routes [] r = rw append-nil refl
setup_routes (registers fn ∷ calls) r =
    setup_routes calls (register fn r) ∙ append_assoc r.routes (fn ∷ []) (fns calls)
setup_routes (uses [] ∷ calls) r = setup_routes calls r
setup_routes (uses (arg ∷ args) ∷ calls) r = setup_routes calls (use_middleware (arg ∷ args) r)

setup_middleware :
    (calls : List Call) (r : Registry) → (setup calls r).middleware ≡ r.middleware ++ groups calls
unfolding register use_middleware
setup_middleware [] r = rw append-nil refl
setup_middleware (registers fn ∷ calls) r = setup_middleware calls (register fn r)
setup_middleware (uses [] ∷ calls) r = setup_middleware calls r
setup_middleware (uses (arg ∷ args) ∷ calls) r =
    setup_middleware calls (use_middleware (arg ∷ args) r)
    ∙ append_assoc r.middleware ((arg ∷ args) ∷ []) (groups calls)

abbrev pub empty : Registry
empty = record { routes = []; middleware = [] }

-- The layers whose condition holds, in order.
abbrev pub present : List (Bool × Layer) → List Layer
present [] = []
present ((b, layer) ∷ layers) = let rest = present layers in if b then layer ∷ rest else rest

module _ {Handler : Type 0} (c : Config Handler) where
  -- The layers below the caller's middleware, and those between that and the registered functions.
  abbrev pub first_layers : List Layer
  first_layers = present (
      (true, new_app (app_config c))
      ∷ (true, recovery)
      ∷ (true, cors (cors_origins c) (cors_methods c) (cors_headers c))
      ∷ (security_headers c, security header_values)
      ∷ (not c.disable_compress, compression c.compress_next)
      ∷ [])

  abbrev pub root_layers : List Layer
  root_layers = present (
      (true, group (path_prefix c))
      ∷ (true, health_route)
      ∷ (not (str_eq c.logger_format "-"), request_log (logger_format c))
      ∷ [])

  -- The layers of the app for the caller's groups of middleware and registered functions.
  abbrev pub stack : (groups : List (List ℕ)) → (fns : List ℕ) → List Layer
  stack groups fns = first_layers ++ map caller groups ++ root_layers ++ map domain fns

  built_in_lem : built_in c ≡ first_layers
  unfolding built_in
  built_in_lem = elim (Bool-cases (security_headers c)) [
    | inl t ↦ elim (Bool-cases c.disable_compress) [
      | inl u ↦ rw (t, u) refl
      | inr u ↦ rw (t, u) refl
    ]
    | inr t ↦ elim (Bool-cases c.disable_compress) [
      | inl u ↦ rw (t, u) refl
      | inr u ↦ rw (t, u) refl
    ]
  ]

  root_group_lem : root_group c ≡ root_layers
  unfolding root_group
  root_group_lem = elim (Bool-cases (str_eq c.logger_format "-")) [
    | inl t ↦ rw t refl
    | inr t ↦ rw t refl
  ]

-- Whatever calls of Register and Use were made, Start builds the same app, in this order: the recovery, CORS,
-- the security headers if they are on, and the compression unless it is off; one call on the app for
-- each Use that had arguments, with exactly those, in the order of the calls; the group of the prefix,
-- its health route, and only then the request log, unless its format is "-"; and the registered
-- functions, in the order in which they were registered.
pub build-setup :
    {Handler : Type 0} (c : Config Handler) (calls : List Call)
    → build c (setup calls empty) ≡ stack c (groups calls) (fns calls)
unfolding build
build-setup c calls =
    rw (setup_routes calls empty, setup_middleware calls empty)
      (ap (λ l. l ++ map caller (groups calls) ++ root_group c ++ map domain (fns calls))
          (built_in_lem c)
        ∙ ap (λ l. first_layers c ++ map caller (groups calls) ++ l ++ map domain (fns calls))
            (root_group_lem c))

-- A route is on a list.
pub data IsListed (method path : String) : List Route → Type 0 where
  here :
      {r : Route} {rs : List Route}
      → r.method ≡ method
      → r.path ≡ path
      → IsListed method path (r ∷ rs)
  there : {r : Route} {rs : List Route} → IsListed method path rs → IsListed method path (r ∷ rs)

not_skipped :
    {method path : String} {rs : List Route}
    → IsListed method path rs
    → exclude_routes rs method path ≡ false
unfolding exclude_routes
not_skipped {method} {path} (here {r} {rs} m p) = rw (m, p, eq_refl method, eq_refl path) refl
not_skipped {method} {path} (there {r} {rs} l) = ground (arith, not_skipped l)

and_left : (a b : Bool) → (a && b) ≡ true → a ≡ true
and_left a b h = ground arith

and_right : (a b : Bool) → (a && b) ≡ true → b ≡ true
and_right a b h = ground arith

rest_of : (b rest : Bool) → (if b then false else rest) ≡ false → b ≡ false → rest ≡ false
rest_of b rest h f = ground arith

listed :
    (rs : List Route) (method path : String)
    → exclude_routes rs method path ≡ false
    → IsListed method path rs
unfolding exclude_routes
listed [] method path h = absurd (ground arith)
listed (r ∷ rs) method path h = elim (Bool-cases (str_eq method r.method && str_eq path r.path)) [
  | inl t ↦
      here (sym ((eq_iff method r.method).0 (and_left _ _ t)))
        (sym ((eq_iff path r.path).0 (and_right _ _ t)))
  | inr f ↦ there (listed rs method path (rest_of _ _ h f))
]

-- The function that ExcludeRoutes returns answers false, so that the middleware runs, exactly on the
-- routes that were given, and true, so that it is skipped, on all others.
exclude_routes_iff :
    (rs : List Route) (method path : String)
    → (exclude_routes rs method path ≡ false) ↔ IsListed method path rs
exclude_routes_iff rs method path = (listed rs method path, not_skipped)
