-- ===== src/Prometheus/Config.antt =====
-- The Config of prometheus/prometheus.go and its defaults. Durations are nanoseconds.
use samsara_components.Prelude.{
  String, Bool, arith, ℤ, pos, is_pos, is_zero, str_eq, if◌then◌else◌, not, ◌&&◌, ◌<ℤ◌, List, [],
  ◌∷◌,
}
use samsara_components.Go.Format.{host_port}

pub record Config : Type 0 where
  pub host : String
  pub port : ℤ
  pub path : String
  pub read_timeout : ℤ
  pub write_timeout : ℤ
  pub disable_runtime_collectors : Bool

unfoldable pub port : Config → ℤ
port c = if is_zero c.port then pos 2112 else c.port

unfoldable pub path : Config → String
path c = if str_eq c.path "" then "/metrics" else c.path

unfoldable pub addr : Config → String
unfolding port host_port
addr c = host_port c.host (port c)

-- `c.ReadTimeout <= 0` stands here as its opposite.
unfoldable pub read_timeout : Config → ℤ
read_timeout c = if not (is_pos c.read_timeout) then pos 5_000_000_000 else c.read_timeout

unfoldable pub write_timeout : Config → ℤ
write_timeout c = if not (is_pos c.write_timeout) then pos 30_000_000_000 else c.write_timeout

-- The collectors that New registers before the observer's; `custom` says whether WithRegistry was given.
pub data Collector : Type 0 where
  go_runtime process : Collector
  up starts restarts stop_errors health_duration health_failures : Collector

abbrev observer_collectors : List Collector
observer_collectors = up ∷ starts ∷ restarts ∷ stop_errors ∷ health_duration ∷ health_failures ∷ []

unfoldable pub registered : Config → (custom : Bool) → List Collector
registered c custom =
    if not custom && not c.disable_runtime_collectors
    then go_runtime ∷ process ∷ observer_collectors
    else observer_collectors

-- Both deadlines are positive, whatever the configuration holds.
pub timeouts_pos : (c : Config) → (pos 0 <ℤ read_timeout c) × (pos 0 <ℤ write_timeout c)
unfolding read_timeout write_timeout
timeouts_pos c = ground arith
