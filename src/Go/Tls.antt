-- ===== src/Go/Tls.antt =====
-- What the packages' TLS settings use of crypto/tls, crypto/x509 and os: files that are read, and the
-- configuration that is built.
pub mod Client
use samsara_components.Prelude.{
  ℕ, String, Bool, true, false, not, ◌||◌, ◌&&◌, List, [], ◌∷◌, Option, none, some, ◌⊎◌, inl, inr,
  str_eq, if◌then◌else◌,
}
use samsara_components.Go.Errors.{Error, newf, errorf}

pub data Version : Type 0 where
  unset tls12 tls13 : Version

-- A pool and a certificate are known by the files that they were read from.
pub record TlsConfig : Type 0 where
  pub server_name : String
  pub insecure_skip_verify : Bool
  pub min_version : Version
  pub root_cas : Option String
  pub client_cas : Option String
  pub require_client_cert : Bool
  pub certificates : List (String × String)

-- `&tls.Config{}`
abbrev pub empty_config : TlsConfig
empty_config = record {
  server_name = "";
  insecure_skip_verify = false;
  min_version = unset;
  root_cas = none;
  client_cas = none;
  require_client_cert = false;
  certificates = [];
}

-- The error of reading a file; whether a file's contents hold a certificate; the error of loading a
-- certificate with its key.
pub record Files : Type 0 where
  pub read_error : (path : String) → Option Error
  pub has_certs : (path : String) → Bool
  pub pair_error : (cert key : String) → Option Error

infixl 10 ◌>>=◌
abbrev pub ◌>>=◌ : {A B : Type 0} → Error ⊎ A → (A → Error ⊎ B) → Error ⊎ B
inl e >>= k = inl e
inr a >>= k = k a

-- The texts of the errors of one package.
pub record Texts : Type 0 where
  pub bad_version : String
  pub read_ca : String
  pub no_certs : String
  pub load_pair : String
  pub half_pair : String

-- The TLS fields that the Configs of the two client packages have in common.
pub record ClientSettings : Type 0 where
  pub tls : Bool
  pub ca_file : String
  pub cert_file : String
  pub key_file : String
  pub server_name : String
  pub insecure_skip_verify : Bool
  pub min_version : String

module _ (t : Texts) (f : Files) (s : ClientSettings) where
  -- `switch c.TLSMinVersion`
  unfoldable pub min_version : Error ⊎ Version
  min_version =
      if str_eq s.min_version "" || str_eq s.min_version "1.2"
      then inr tls12
      else if str_eq s.min_version "1.3"
      then inr tls13
      else inl (newf t.bad_version (s.min_version ∷ []))

  -- `if c.TLSCAFile != "" { … }`
  unfoldable pub load_roots : TlsConfig → Error ⊎ TlsConfig
  load_roots cfg = if str_eq s.ca_file "" then inr cfg else elim (f.read_error s.ca_file) [
    | some e ↦ inl (errorf t.read_ca (s.ca_file ∷ []) e)
    | none ↦
        if not (f.has_certs s.ca_file)
        then inl (newf t.no_certs (s.ca_file ∷ []))
        else inr (record cfg { root_cas = some s.ca_file })
  ]

  -- The switch on TLSCertFile and TLSKeyFile.
  unfoldable pub load_pair : TlsConfig → Error ⊎ TlsConfig
  load_pair cfg =
      if not (str_eq s.cert_file "") && not (str_eq s.key_file "")
      then elim (f.pair_error s.cert_file s.key_file) [
        | some e ↦ inl (errorf t.load_pair [] e)
        | none ↦ inr (record cfg { certificates = (s.cert_file, s.key_file) ∷ [] })
      ]
      else if not (str_eq s.cert_file "") || not (str_eq s.key_file "")
      then inl (newf t.half_pair [])
      else inr cfg

  -- The configuration of a client that verifies the server under this name.
  unfoldable pub client_config : (server_name : String) → Error ⊎ TlsConfig
  unfolding min_version load_roots load_pair
  client_config name = do
    v ← min_version
    cfg ← load_roots (record empty_config {
      server_name = name;
      insecure_skip_verify = s.insecure_skip_verify;
      min_version = v;
    })
    load_pair cfg
