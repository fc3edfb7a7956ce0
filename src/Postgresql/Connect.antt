-- ===== src/Postgresql/Connect.antt =====
-- What Start of postgresql/postgresql.go does up to ready, and Health.
use samsara_components.Prelude.{
  ℕ, String, List, [], ◌∷◌, Option, none, some, ◌⊎◌, inl, inr, ℤ, is_pos, arith, if◌then◌else◌,
}
use samsara_components.Go.Setup.{Setup, new_setup}
use samsara_components.Go.Errors.{Error, newf, errorf}
use samsara_components.Go.Handles.{Call, made, used, closed, Outcome, failed, ready, IsTidy}
use samsara_components.Go.Options.{apply_all}
use samsara_components.Postgresql.Config.{Config, Url, dsn}

-- The limits of a `pgxpool.Config`; what else it holds is `rest`.
pub record PoolConfig (Rest : Type 0) : Type 0 where
  pub max_conns : ℤ
  pub min_conns : ℤ
  pub rest : Rest

unfoldable pub new :
    {Rest : Type 0}
    → Config
    → List (
        Setup Config (PoolConfig Rest → PoolConfig Rest)
        → Setup Config (PoolConfig Rest → PoolConfig Rest))
    → Setup Config (PoolConfig Rest → PoolConfig Rest)
unfolding new_setup
new = new_setup "postgresql"

-- pgxpool, and `url.URL.String`.
pub record Library (Rest : Type 0) : Type 0 where
  pub url_string : Url → String
  pub parse_config : (dsn : String) → Error ⊎ PoolConfig Rest
  pub new_pool : PoolConfig Rest → Error ⊎ ℕ
  pub ping : (pool : ℕ) → Option Error

module _ {Rest : Type 0} where
  -- The limits that are set, in place of the parsed ones.
  unfoldable pub limited : Config → PoolConfig Rest → PoolConfig Rest
  limited c p = record p {
    max_conns = if is_pos c.max_conns then c.max_conns else p.max_conns;
    min_conns = if is_pos c.min_conns then c.min_conns else p.min_conns;
  }

  -- What the pool is made with: the parsed settings, with the limits and then the caller's options.
  unfoldable pub pool_config :
      Config → List (PoolConfig Rest → PoolConfig Rest) → PoolConfig Rest → PoolConfig Rest
  unfolding limited apply_all
  pool_config c opts p = apply_all opts (limited c p)

  module _ (l : Library Rest) where
    abbrev pub after_ping : (pool : ℕ) → Option Error → List Call × Outcome
    after_ping h none = (made h ∷ used "ping" h ∷ [], ready h)
    after_ping h (some e) =
        (made h ∷ used "ping" h ∷ closed h ∷ [], failed (errorf "postgres: ping failed: %w" [] e))

    abbrev pub after_pool : Error ⊎ ℕ → List Call × Outcome
    after_pool (inl e) = ([], failed (errorf "postgres: pool creation failed: %w" [] e))
    after_pool (inr h) = after_ping h (l.ping h)

    abbrev pub after_parse :
        Config
        → (opts : List (PoolConfig Rest → PoolConfig Rest)) → Error ⊎ PoolConfig Rest
        → List Call × Outcome
    after_parse c opts (inl e) = ([], failed (errorf "postgres: invalid DSN: %w" [] e))
    after_parse c opts (inr p) = after_pool (l.new_pool (pool_config c opts p))

    unfoldable pub start :
        Config → (opts : List (PoolConfig Rest → PoolConfig Rest)) → List Call × Outcome
    unfolding pool_config dsn
    start c opts = after_parse c opts (l.parse_config (dsn l.url_string c))

    unfoldable pub health : (pool : Option ℕ) → Option Error
    health none = some (newf "postgres: pool not initialised" [])
    health (some h) = l.ping h

    after_ping-IsTidy : (h : ℕ) (r : Option Error) → IsTidy (after_ping h r)
    after_ping-IsTidy h none = (omega arith, omega arith)
    after_ping-IsTidy h (some e) = omega arith

    after_pool-IsTidy : (r : Error ⊎ ℕ) → IsTidy (after_pool r)
    after_pool-IsTidy (inl e) = omega arith
    after_pool-IsTidy (inr h) = after_ping-IsTidy h (l.ping h)

    after_parse-IsTidy :
        (c : Config) (opts : List (PoolConfig Rest → PoolConfig Rest)) (r : Error ⊎ PoolConfig Rest)
        → IsTidy (after_parse c opts r)
    after_parse-IsTidy c opts (inl e) = omega arith
    after_parse-IsTidy c opts (inr p) = after_pool-IsTidy (l.new_pool (pool_config c opts p))

    -- A Start that fails, on its DSN, the pool or the ping, leaves no pool open; one that gets to ready
    -- holds the only pool that it made.
    pub start-IsTidy :
        (c : Config) (opts : List (PoolConfig Rest → PoolConfig Rest)) → IsTidy (start c opts)
    unfolding start
    start-IsTidy c opts = after_parse-IsTidy c opts (l.parse_config (dsn l.url_string c))
