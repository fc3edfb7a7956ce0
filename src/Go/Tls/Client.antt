-- ===== src/Go/Tls/Client.antt =====
-- When the TLS settings of a client can be loaded, and what is then built.
use samsara_components.Prelude.{
  String, Bool, true, false, not, ◌||◌, ◌&&◌, ◌≡◌, refl, [], ◌∷◌, none, some, ◌⊎◌, inl, inr, str_eq,
  arith, if◌then◌else◌, Bool-cases, Option-cases, is_some, ap,
}
use samsara_components.Go.Errors.{Error}
use samsara_components.Go.Tls.{
  Version, tls12, tls13, TlsConfig, Files, Texts, ClientSettings, min_version, load_roots,
  load_pair, client_config, ◌>>=◌,
}

-- The settings name a known version; their CA file, if any, can be read and holds a certificate; and they
-- name a certificate and a key that load, or neither.
abbrev pub is_known : String → Bool
is_known v = str_eq v "" || str_eq v "1.2" || str_eq v "1.3"

abbrev pub has_roots : Files → String → Bool
has_roots f ca = str_eq ca "" || (not (is_some (f.read_error ca)) && f.has_certs ca)

abbrev pub has_pair : Files → (cert key : String) → Bool
has_pair f cert key =
    if str_eq cert ""
    then str_eq key ""
    else not (str_eq key "") && not (is_some (f.pair_error cert key))

abbrev pub is_loadable : Files → ClientSettings → Bool
is_loadable f s =
    is_known s.min_version && (has_roots f s.ca_file && has_pair f s.cert_file s.key_file)

-- What they then ask for.
abbrev pub asked : ClientSettings → (server_name : String) → TlsConfig
asked s name = record {
  server_name = name;
  insecure_skip_verify = s.insecure_skip_verify;
  min_version = if str_eq s.min_version "" || str_eq s.min_version "1.2" then tls12 else tls13;
  root_cas = if str_eq s.ca_file "" then none else some s.ca_file;
  client_cas = none;
  require_client_cert = false;
  certificates = if str_eq s.cert_file "" then [] else (s.cert_file, s.key_file) ∷ [];
}

abbrev pub IsOutcome : {A : Type 0} → Bool → A → Error ⊎ A → Type 0
IsOutcome true a r = r ≡ inr a
IsOutcome false a (inl e) = Unit
IsOutcome false a (inr b) = true ≡ false

-- Two steps in sequence.
bind-IsOutcome :
    {A B : Type 0} (b c : Bool) (a : A) (a' : B) (r : Error ⊎ A) (k : A → Error ⊎ B)
    → IsOutcome b a r
    → IsOutcome c a' (k a)
    → IsOutcome (b && c) a' (r >>= k)
bind-IsOutcome true true a a' r k h l = rw h l
bind-IsOutcome true false a a' r k h l = rw h l
bind-IsOutcome false c a a' (inl e) k h l = tt
bind-IsOutcome false c a a' (inr x) k h l = absurd (ground (arith, h))

module _ (t : Texts) (f : Files) (s : ClientSettings) where
  abbrev asked_version : Version
  asked_version = if str_eq s.min_version "" || str_eq s.min_version "1.2" then tls12 else tls13

  min_version-IsOutcome : IsOutcome (is_known s.min_version) asked_version (min_version t f s)
  unfolding min_version
  min_version-IsOutcome = elim (Bool-cases (str_eq s.min_version "")) [
    | inl e ↦ rw e refl
    | inr e ↦ elim (Bool-cases (str_eq s.min_version "1.2")) [
      | inl h ↦ rw (e, h) refl
      | inr h ↦ elim (Bool-cases (str_eq s.min_version "1.3")) [
        | inl l ↦ rw (e, h, l) refl
        | inr l ↦ rw (e, h, l) tt
      ]
    ]
  ]

  load_roots-IsOutcome :
      (cfg : TlsConfig)
      → cfg.root_cas ≡ none
      → IsOutcome
          (has_roots f s.ca_file)
          (record cfg { root_cas = if str_eq s.ca_file "" then none else some s.ca_file })
          (load_roots t f s cfg)
  unfolding load_roots
  load_roots-IsOutcome cfg n = elim (Bool-cases (str_eq s.ca_file "")) [
    | inl e ↦ rw e (ap (λ r. inr (record cfg { root_cas = r })) n)
    | inr e ↦ elim (Option-cases (f.read_error s.ca_file)) [
      | inr (err, h) ↦ rw (e, h) tt
      | inl h ↦ elim (Bool-cases (f.has_certs s.ca_file)) [
        | inl l ↦ rw (e, h, l) refl
        | inr l ↦ rw (e, h, l) tt
      ]
    ]
  ]

  load_pair-IsOutcome :
      (cfg : TlsConfig)
      → cfg.certificates ≡ []
      → IsOutcome
          (has_pair f s.cert_file s.key_file)
          (record cfg {
            certificates = if str_eq s.cert_file "" then [] else (s.cert_file, s.key_file) ∷ [];
          })
          (load_pair t f s cfg)
  unfolding load_pair
  load_pair-IsOutcome cfg n = elim (Bool-cases (str_eq s.cert_file "")) [
    | inl e ↦ elim (Bool-cases (str_eq s.key_file "")) [
      | inl h ↦ rw (e, h) (ap (λ r. inr (record cfg { certificates = r })) n)
      | inr h ↦ rw (e, h) tt
    ]
    | inr e ↦ elim (Bool-cases (str_eq s.key_file "")) [
      | inl h ↦ rw (e, h) tt
      | inr h ↦ elim (Option-cases (f.pair_error s.cert_file s.key_file)) [
        | inl l ↦ rw (e, h, l) refl
        | inr (err, l) ↦ rw (e, h, l) tt
      ]
    ]
  ]

  -- A client's TLS configuration is built if and only if its settings can be loaded, and is then, field by
  -- field, what they ask for, under the given server name.
  pub client_config-IsOutcome :
      (name : String) → IsOutcome (is_loadable f s) (asked s name) (client_config t f s name)
  unfolding client_config
  client_config-IsOutcome name =
      bind-IsOutcome (is_known s.min_version) _ asked_version (asked s name) (min_version t f s) _
        min_version-IsOutcome
        (bind-IsOutcome (has_roots f s.ca_file) (has_pair f s.cert_file s.key_file) _ (asked s name)
          _ (load_pair t f s) (load_roots-IsOutcome _ refl) (load_pair-IsOutcome _ refl))

some-IsOutcome :
    {A : Type 0} (b : Bool) (a : A) (r : Error ⊎ A)
    → IsOutcome b a r
    → IsOutcome b (some a) (r >>= λ x. inr (some x))
some-IsOutcome true a r h = rw h refl
some-IsOutcome false a (inl e) h = tt
some-IsOutcome false a (inr x) h = absurd (ground (arith, h))

-- Settings that count only if TLS is on.
pub switch-IsOutcome :
    {A : Type 0} (on b : Bool) (a : A) (r : Error ⊎ A)
    → IsOutcome b a r
    → IsOutcome
        (not on || b)
        (if on then some a else none)
        (if not on then inr none else (r >>= λ x. inr (some x)))
switch-IsOutcome true b a r h = some-IsOutcome b a r h
switch-IsOutcome false b a r h = refl
