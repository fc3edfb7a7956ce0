-- ===== src/Sqlite/Config.antt =====
-- sqlite/config.go: the configuration, its defaults and the connection string. Durations are nanoseconds.
use Prim.Native.String.{◌++◌ as cat}
use text.Mathlib.Text.{find?}
use samsara_components.Prelude.{
  String, Bool, ◌||◌, ◌/◌, ◌-◌, List, [], ◌∷◌, is_some, arith, ℤ, pos, negsuc, is_pos, str_eq,
  if◌then◌else◌, ◌≡◌, ◌<ℤ◌, max_ℤ, suc, ◌==◌,
}
use samsara_components.Go.Format.{itoa}

pub record Config : Type 0 where
  pub path : String
  pub busy_timeout : ℤ
  pub journal_mode : String
  pub synchronous : String
  pub disable_foreign_keys : Bool
  pub max_open_conns : ℤ
  pub connect_timeout : ℤ

-- What the code uses of the case tables of Unicode, and of the escaping of net/url.
pub record Texts : Type 0 where
  pub to_upper : String → String
  pub equal_fold : String → String → Bool
  pub query_escape : String → String

abbrev pub memory_path : String
memory_path = ":memory:"

-- `strings.Contains`
abbrev pub contains : String → String → Bool
contains s part = is_some (find? s part)

unfoldable pub path : Config → String
path c = if str_eq c.path "" then memory_path else c.path

unfoldable pub in_memory : Config → Bool
unfolding path
in_memory c = str_eq (path c) memory_path || contains (path c) "mode=memory"

unfoldable pub journal_mode : Texts → Config → String
journal_mode t c = if str_eq c.journal_mode "" then "WAL" else t.to_upper c.journal_mode

unfoldable pub synchronous : Texts → Config → String
synchronous t c = if str_eq c.synchronous "" then "NORMAL" else t.to_upper c.synchronous

unfoldable pub busy_timeout : Config → ℤ
busy_timeout c = if is_pos c.busy_timeout then c.busy_timeout else pos 5_000_000_000

unfoldable pub connect_timeout : Config → ℤ
connect_timeout c = if is_pos c.connect_timeout then c.connect_timeout else pos 10_000_000_000

unfoldable pub max_open_conns : Config → ℤ
unfolding in_memory
max_open_conns c =
    if in_memory c then pos 1 else if is_pos c.max_open_conns then c.max_open_conns else pos 1

unfoldable pub foreign_keys : Config → String
foreign_keys c = if c.disable_foreign_keys then "off" else "on"

-- `Duration.Milliseconds`, which rounds towards zero.
unfoldable pub milliseconds : ℤ → ℤ
milliseconds (pos n) = pos (n / 1_000_000)
milliseconds (negsuc n) = let q = suc n / 1_000_000 in if q == 0 then pos 0 else negsuc (q - 1)

-- `Values.Encode` for values that all have the one key `_pragma`.
unfoldable pub encode_pragmas : Texts → List String → String
encode_pragmas t [] = ""
encode_pragmas t (p ∷ []) = cat "_pragma=" (t.query_escape p)
encode_pragmas t (p ∷ q ∷ ps) =
    cat "_pragma=" (cat (t.query_escape p) (cat "&" (encode_pragmas t (q ∷ ps))))

unfoldable pub pragmas : Texts → Config → List String
unfolding busy_timeout milliseconds itoa journal_mode synchronous foreign_keys
pragmas t c =
    cat "busy_timeout(" (cat (itoa (milliseconds (busy_timeout c))) ")")
    ∷ cat "journal_mode(" (cat (journal_mode t c) ")")
    ∷ cat "synchronous(" (cat (synchronous t c) ")")
    ∷ cat "foreign_keys(" (cat (foreign_keys c) ")")
    ∷ []

unfoldable pub dsn : Texts → Config → String
unfolding path pragmas encode_pragmas
dsn t c = cat "file:" (cat (path c) (cat "?" (encode_pragmas t (pragmas t c))))

at_least_one :
    (memory : Bool) (n : ℤ)
    → (if memory then pos 1 else if is_pos n then n else pos 1)
      ≡ (if memory then pos 1 else max_ℤ (pos 1) n)
at_least_one memory (pos n) = ground arith
at_least_one memory (negsuc n) = ground arith

-- Whatever the configuration holds, a database in memory has exactly one connection, and any other the
-- configured number or one, whichever is larger; and both deadlines are positive.
pub limits_lem :
    (c : Config)
    → (max_open_conns c ≡ (if in_memory c then pos 1 else max_ℤ (pos 1) c.max_open_conns))
      × (pos 0 <ℤ busy_timeout c)
      × (pos 0 <ℤ connect_timeout c)
unfolding max_open_conns busy_timeout connect_timeout
limits_lem c = (at_least_one (in_memory c) c.max_open_conns, ground arith, ground arith)
