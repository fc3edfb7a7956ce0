-- ===== src/Grpc/Tls.antt =====
-- grpc/tls.go: the server's transport credentials.
use mathlib.Core.Path.{subst}
use samsara_components.Prelude.{
  String, Bool, true, false, not, ◌||◌, ◌&&◌, is_some, ◌≡◌, refl, [], ◌∷◌, Option, none, some,
  str_eq, arith, if◌then◌else◌, ◌⊎◌, inl, inr, Bool-cases, Option-cases, eq_iff,
}
use samsara_components.Go.Errors.{Error, newf, errorf}
use samsara_components.Go.Tls.Client.{IsOutcome, is_known, has_roots}
use samsara_components.Go.Tls.{Version, tls12, tls13, unset, TlsConfig, empty_config, Files}

-- The TLS fields of Config.
pub record Settings : Type 0 where
  pub tls : Bool
  pub cert_file : String
  pub key_file : String
  pub client_ca_file : String
  pub min_version : String

abbrev pub Result : Type 0
Result = Error ⊎ Option TlsConfig

-- `if c.TLSClientCAFile != "" { … }`, and the end of the function.
unfoldable pub with_client_ca : Files → Settings → TlsConfig → Result
with_client_ca f s cfg =
    if str_eq s.client_ca_file "" then inr (some cfg) else elim (f.read_error s.client_ca_file) [
      | some e ↦ inl (errorf "grpc: read TLSClientCAFile %q: %w" (s.client_ca_file ∷ []) e)
      | none ↦
          if not (f.has_certs s.client_ca_file)
          then inl
              (newf "grpc: TLSClientCAFile %q: no PEM certificates found" (s.client_ca_file ∷ []))
          else inr
              (some (record cfg { client_cas = some s.client_ca_file; require_client_cert = true }))
    ]

-- `switch c.TLSMinVersion`
unfoldable pub with_version : Files → Settings → TlsConfig → Result
unfolding with_client_ca
with_version f s cfg =
    if str_eq s.min_version "" || str_eq s.min_version "1.2"
    then with_client_ca f s (record cfg { min_version = tls12 })
    else if str_eq s.min_version "1.3"
    then with_client_ca f s (record cfg { min_version = tls13 })
    else inl
        (newf "grpc: unsupported TLSMinVersion %q (want \"1.2\" or \"1.3\")" (s.min_version ∷ []))

-- The function past its first test.
unfoldable pub with_pair : Files → Settings → Result
unfolding with_version
with_pair f s =
    if str_eq s.cert_file "" || str_eq s.key_file ""
    then inl (newf "grpc: TLS requires both TLSCertFile and TLSKeyFile" [])
    else elim (f.pair_error s.cert_file s.key_file) [
      | some e ↦ inl (errorf "grpc: load TLS cert/key: %w" [] e)
      | none ↦
          with_version f s (record empty_config { certificates = (s.cert_file, s.key_file) ∷ [] })
    ]

unfoldable pub tls_credentials : Files → Settings → Result
tls_credentials f s = if not s.tls then inr none else with_pair f s

-- What the settings ask for, field by field.
abbrev pub asked_version : String → Version
asked_version v = if str_eq v "1.3" then tls13 else tls12

abbrev pub described : Settings → TlsConfig
described s = record {
  server_name = "";
  insecure_skip_verify = false;
  min_version = asked_version s.min_version;
  root_cas = none;
  client_cas = if str_eq s.client_ca_file "" then none else some s.client_ca_file;
  require_client_cert = not (str_eq s.client_ca_file "");
  certificates = (s.cert_file, s.key_file) ∷ [];
}

-- TLS is off; or the settings name a certificate and a key that load, a known version, and a client CA
-- file that can be read and holds a certificate, or none.
abbrev pub has_cert : Files → Settings → Bool
has_cert f s =
    not (str_eq s.cert_file "" || str_eq s.key_file "")
    && not (is_some (f.pair_error s.cert_file s.key_file))

abbrev pub is_usable : Files → Settings → Bool
is_usable f s = has_cert f s && (is_known s.min_version && has_roots f s.client_ca_file)

abbrev pub wanted : Settings → Option TlsConfig
wanted s = if s.tls then some (described s) else none

or_right : (a b : Bool) → a ≡ false → (a || b) ≡ true → b ≡ true
or_right a b e h = ground arith

old_version : (v : String) → (str_eq v "" || str_eq v "1.2") ≡ true → str_eq v "1.3" ≡ false
old_version v h = elim (Bool-cases (str_eq v "")) [
  | inl e ↦ rw ((eq_iff v "").0 e) refl
  | inr e ↦ rw ((eq_iff v "1.2").0 (or_right _ _ e h)) refl
]

module _ (f : Files) (s : Settings) where
  abbrev at_version : Version → TlsConfig
  at_version v = record empty_config {
    certificates = (s.cert_file, s.key_file) ∷ [];
    min_version = v;
  }

  asked_old :
      (str_eq s.min_version "" || str_eq s.min_version "1.2") ≡ true
      → asked_version s.min_version ≡ tls12
  asked_old e = rw (old_version s.min_version e) refl

  asked_new : str_eq s.min_version "1.3" ≡ true → asked_version s.min_version ≡ tls13
  asked_new e = rw e refl

  client_ca-IsOutcome :
      IsOutcome
        (has_roots f s.client_ca_file)
        (some (described s))
        (with_client_ca f s (at_version (asked_version s.min_version)))
  unfolding with_client_ca
  client_ca-IsOutcome = elim (Bool-cases (str_eq s.client_ca_file "")) [
    | inl e ↦ rw e refl
    | inr e ↦ elim (Option-cases (f.read_error s.client_ca_file)) [
      | inr (err, r) ↦ rw (e, r) tt
      | inl r ↦ elim (Bool-cases (f.has_certs s.client_ca_file)) [
        | inl h ↦ rw (e, r, h) refl
        | inr h ↦ rw (e, r, h) tt
      ]
    ]
  ]

  module _ (want : Option TlsConfig) (w : some (described s) ≡ want) where
    client_ca_at :
        (v : Version)
        → asked_version s.min_version ≡ v
        → IsOutcome (has_roots f s.client_ca_file) want (with_client_ca f s (at_version v))
    client_ca_at v e =
        subst
          (λ v. IsOutcome (has_roots f s.client_ca_file) want (with_client_ca f s (at_version v))) e
          (subst
            (λ t.
              IsOutcome (has_roots f s.client_ca_file) t
                (with_client_ca f s (at_version (asked_version s.min_version))))
            w client_ca-IsOutcome)

    version-IsOutcome :
        IsOutcome
          (is_known s.min_version && has_roots f s.client_ca_file)
          want
          (with_version f s (at_version unset))
    unfolding with_version
    version-IsOutcome = elim (Bool-cases (str_eq s.min_version "" || str_eq s.min_version "1.2")) [
      | inl e ↦ rw e (client_ca_at tls12 (asked_old e))
      | inr e ↦ elim (Bool-cases (str_eq s.min_version "1.3")) [
        | inl h ↦ rw (e, h) (client_ca_at tls13 (asked_new h))
        | inr h ↦ rw (e, h) tt
      ]
    ]

  pair-IsOutcome : IsOutcome (is_usable f s) (some (described s)) (with_pair f s)
  unfolding with_pair
  pair-IsOutcome = elim (Bool-cases (str_eq s.cert_file "" || str_eq s.key_file "")) [
    | inl e ↦ rw e tt
    | inr e ↦ elim (Option-cases (f.pair_error s.cert_file s.key_file)) [
      | inr (err, p) ↦ rw (e, p) tt
      | inl p ↦ rw (e, p) (version-IsOutcome (some (described s)) refl)
    ]
  ]

  switch-IsOutcome :
      (b : Bool)
      → IsOutcome
          (not b || is_usable f s)
          (if b then some (described s) else none)
          (if not b then inr none else with_pair f s)
  switch-IsOutcome true = pair-IsOutcome
  switch-IsOutcome false = refl

  -- TLSCredentials fails if and only if TLS is on and the settings are not usable: the certificate or its
  -- key is not named or does not load, the version is unknown, or a client CA file is named that cannot be
  -- read or holds no certificate. Otherwise there are none if TLS is off, and if it is on they are, field
  -- by field, those asked for: that one certificate, TLS 1.3 if that is the least version named and 1.2
  -- otherwise, and, if and only if a client CA file is named, a demand for client certificates that
  -- the authorities in this file sign.
  pub tls_credentials-IsOutcome :
      IsOutcome (not s.tls || is_usable f s) (wanted s) (tls_credentials f s)
  unfolding tls_credentials
  tls_credentials-IsOutcome = switch-IsOutcome s.tls
