-- ===== src/S3/Connect.antt =====
-- Start of s3/s3.go up to ready, what Stop leaves, and the engine of s3/transfermanager_engine.go.
use mathlib.Core.Option
use samsara_components.Prelude.{
  ℕ, String, List, Bool, ◌≡◌, refl, [], ◌∷◌, Option, none, some, ◌⊎◌, inl, inr, ℤ, str_eq,
  if◌then◌else◌,
}
use samsara_components.Go.Setup.{Setup, new_setup}
use samsara_components.Go.Errors.{Error, Sentinel, errorf, errors_is}
use samsara_components.Go.Options.{apply_all}
use samsara_components.S3.Config.{Config, upload_part_size, upload_concurrency}
use samsara_components.S3.Probe.{Server, probe, health}

-- The fields of `s3.Options` that Start sets; what else they hold is `rest`.
pub record Options (Rest : Type 0) : Type 0 where
  pub use_path_style : Bool
  pub base_endpoint : Option String
  pub rest : Rest

unfoldable pub new :
    {Rest : Type 0}
    → Config
    → List (Setup Config (Options Rest → Options Rest) → Setup Config (Options Rest → Options Rest))
    → Setup Config (Options Rest → Options Rest)
unfolding new_setup
new = new_setup "s3"

-- The AWS SDK: a loaded configuration or an error, the options that it starts from, and the client that it
-- makes of the options.
pub record Library (Rest : Type 0) : Type 0 where
  pub load : (region key_id secret : String) → Error ⊎ ℕ
  pub options : (aws : ℕ) → Options Rest
  pub new_client : Options Rest → ℕ

-- The transfer manager's options.
pub record Engine : Type 0 where
  pub client : ℕ
  pub part_size_bytes : ℤ
  pub concurrency : ℤ
  pub multipart_upload_threshold : ℤ

unfoldable pub new_engine : (client : ℕ) → Config → Engine
unfolding upload_part_size upload_concurrency
new_engine client c =
    let part_size = upload_part_size c in
    record {
      client = client;
      part_size_bytes = part_size;
      concurrency = upload_concurrency c;
      multipart_upload_threshold = part_size;
    }

-- The live handles: the client, the presigner that is made of it, and the engine.
pub record Live : Type 0 where
  pub client : Option ℕ
  pub presigner : Option ℕ
  pub engine : Option Engine

module _ {Rest : Type 0} where
  abbrev pub with_path_style : Config → Options Rest → Options Rest
  with_path_style c o = record o { use_path_style = c.path_style_forcing }

  abbrev pub with_endpoint : Config → Options Rest → Options Rest
  with_endpoint c o = record o { base_endpoint = some c.endpoint }

  -- The options of the client, the caller's last.
  unfoldable pub client_opts :
      Config → List (Options Rest → Options Rest) → List (Options Rest → Options Rest)
  client_opts c opts =
      if str_eq c.endpoint ""
      then with_path_style c ∷ opts
      else with_path_style c ∷ with_endpoint c ∷ opts

  module _ (l : Library Rest) (s : Server) (c : Config)
      (opts : List (Options Rest → Options Rest)) where
    abbrev pub client_of : (aws : ℕ) → ℕ
    client_of aws = l.new_client (apply_all (client_opts c opts) (l.options aws))

    abbrev pub after_probe : (client : ℕ) → Option Error → Error ⊎ Live
    after_probe client (some e) = inl (errorf "s3: connectivity check failed: %w" [] e)
    after_probe client none = inr (record {
      client = some client;
      presigner = some client;
      engine = some (new_engine client c);
    })

    abbrev pub after_load : Error ⊎ ℕ → Error ⊎ Live
    after_load (inl e) = inl (errorf "s3: load config: %w" [] e)
    after_load (inr aws) = after_probe (client_of aws) (probe s c (client_of aws))

    -- Start up to ready.
    unfoldable pub start : Error ⊎ Live
    unfolding probe client_opts apply_all new_engine
    start = after_load (l.load c.region c.key_id c.secret)

    -- Start ends as Health goes on the client that it has made.
    abbrev pub Agrees : (health : Option Error) → Error ⊎ Live → Type 0
    Agrees (some e) r = (w : Error) × (r ≡ inl w) × ((t : Sentinel) → errors_is w t ≡ errors_is e t)
    Agrees none r =
        (live : Live) × (r ≡ inr live)
        × (health s c live.client ≡ none)
        × (live.presigner ≡ live.client)
        × (live.engine ≡ Option.map (λ client. new_engine client c) live.client)

    after_probe-Agrees :
        (client : ℕ) (r : Option Error) → probe s c client ≡ r → Agrees r (after_probe client r)
    unfolding health errors_is
    after_probe-Agrees client none e = (
      record { client = some client; presigner = some client; engine = some (new_engine client c) },
      refl,
      e,
      refl,
      refl,
    )
    after_probe-Agrees client (some err) e =
        (errorf "s3: connectivity check failed: %w" [] err, refl, λ t. refl)

    -- Where the configuration loads: if Health would fail on the client that Start makes, Start fails, with
    -- an error under which `errors.Is` finds exactly the sentinels under that of Health. Otherwise
    -- Start gets to ready, and Health is nil on the client that it has stored, for which its presigner and
    -- its engine were made.
    pub start-health :
        (aws : ℕ)
        → l.load c.region c.key_id c.secret ≡ inr aws
        → Agrees (health s c (some (client_of aws))) start
    unfolding start health
    start-health aws e = rw e (after_probe-Agrees (client_of aws) (probe s c (client_of aws)) refl)

-- The handles after the critical section of Stop.
unfoldable pub stopped : Live → Live
stopped live = record live { client = none; presigner = none; engine = none }
