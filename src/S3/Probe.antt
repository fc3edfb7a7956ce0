-- ===== src/S3/Probe.antt =====
-- s3/health.go and s3/internal.go: the connectivity probe of Start and Health.
use samsara_components.Prelude.{
  ℕ, String, Bool, true, false, not, ◌||◌, ◌≡◌, ◌==◌, refl, [], ◌∷◌, Option, none, some, arith,
  str_eq, if◌then◌else◌, inl, inr, Bool-cases, Option-cases,
}
use samsara_components.Go.Errors.{
  Error, Sentinel, sentinel, errorf2, errors_is, s3_probe_forbidden, s3_probe_bucket_missing,
}
use samsara_components.S3.Config.{Config, probe_bucket}
use samsara_components.S3.Observe.{err_not_ready}

abbrev pub err_probe_forbidden : Error
err_probe_forbidden = sentinel s3_probe_forbidden

abbrev pub err_probe_bucket_missing : Error
err_probe_bucket_missing = sentinel s3_probe_bucket_missing

-- What HeadBucket answers, and `errors.As` for the HTTP errors of the AWS SDK, with their status.
pub record Server : Type 0 where
  pub head_bucket : (client : ℕ) (bucket : String) → Option Error
  pub http_status : Error → Option ℕ

abbrev pub or_no_status : Option ℕ → ℕ
or_no_status none = 0
or_no_status (some code) = code

unfoldable pub status_code : Server → Error → ℕ
status_code s e = or_no_status (s.http_status e)

abbrev pub is_expected_status : Option ℕ → Bool
is_expected_status none = false
is_expected_status (some code) = code == 404 || code == 403

unfoldable pub is_expected_health_error : Server → Option Error → Bool
is_expected_health_error s none = false
is_expected_health_error s (some e) = is_expected_status (s.http_status e)

-- What the probe makes of the answer.
unfoldable pub judge : Server → (bucket : String) (strict : Bool) → Option Error → Option Error
unfolding status_code is_expected_health_error errors_is
judge s bucket strict none = none
judge s bucket strict (some e) =
    if strict
    then if status_code s e == 403
      then some (errorf2 "%w: %q: %w" (bucket ∷ []) err_probe_forbidden e)
      else if status_code s e == 404
      then some (errorf2 "%w: %q: %w" (bucket ∷ []) err_probe_bucket_missing e)
      else some e
    else if is_expected_health_error s (some e)
    then none
    else some e

unfoldable pub verify_connectivity :
    Server → (client : ℕ) (bucket : String) (strict : Bool) → Option Error
verify_connectivity s client bucket strict = judge s bucket strict (s.head_bucket client bucket)

unfoldable pub probe : Server → Config → (client : ℕ) → Option Error
probe s c client = verify_connectivity s client (probe_bucket c) (not (str_eq c.health_bucket ""))

unfoldable pub health : Server → Config → (client : Option ℕ) → Option Error
health s c none = some err_not_ready
health s c (some client) = probe s c client

-- The failure of a strict probe, as the caller can tell it apart.
abbrev pub IsToldApart : Server → Error → Option Error → Type 0
IsToldApart s e r =
    (w : Error) × (r ≡ some w)
    × (errors_is w s3_probe_forbidden ≡ (status_code s e == 403))
    × (errors_is w s3_probe_bucket_missing ≡ (status_code s e == 404))
    × ((t : Sentinel) → (errors_is e t || errors_is w t) ≡ errors_is w t)

either_order :
    (code : ℕ) (e : Option Error)
    → (if code == 404 || code == 403 then none else e)
      ≡ (if code == 403 || code == 404 then none else e)
either_order code e = ground arith

missing_ne_forbidden : (n : ℕ) → n == 403 ≡ true → n == 404 ≡ false
missing_ne_forbidden n h = ground arith

absorbed : (a b : Bool) → (b || (a || b)) ≡ (a || b)
absorbed a b = ground arith

same_or : (a : Bool) → (a || a) ≡ a
same_or a = ground arith

judge_strict :
    (s : Server) (bucket : String) (e : Error)
    → errors_is e s3_probe_forbidden ≡ false
    → errors_is e s3_probe_bucket_missing ≡ false
    → IsToldApart s e (judge s bucket true (some e))
unfolding judge errors_is
judge_strict s bucket e f m = elim (Bool-cases (status_code s e == 403)) [
  | inl h ↦ (
    errorf2 "%w: %q: %w" (bucket ∷ []) err_probe_forbidden e,
    rw h refl,
    rw h refl,
    rw (missing_ne_forbidden (status_code s e) h) m,
    λ t. absorbed (errors_is err_probe_forbidden t) (errors_is e t),
  )
  | inr h ↦ elim (Bool-cases (status_code s e == 404)) [
    | inl k ↦ (
      errorf2 "%w: %q: %w" (bucket ∷ []) err_probe_bucket_missing e,
      rw (h, k) refl,
      rw h f,
      rw k refl,
      λ t. absorbed (errors_is err_probe_bucket_missing t) (errors_is e t),
    )
    | inr k ↦ (e, rw (h, k) refl, rw h f, rw k m, λ t. same_or (errors_is e t))
  ]
]

judge_lenient :
    (s : Server) (bucket : String) (e : Error)
    → judge s bucket false (some e)
      ≡ (if status_code s e == 403 || status_code s e == 404 then none else some e)
unfolding judge status_code is_expected_health_error
judge_lenient s bucket e = elim (Option-cases (s.http_status e)) [
  | inl h ↦ rw h refl
  | inr (code, h) ↦ rw h (either_order code (some e))
]

-- Without a configured bucket, an error of HeadBucket makes Health fail with that very error, except
-- that a status of 403 or 404 counts as healthy.
pub health-lenient :
    (s : Server) (c : Config) (client : ℕ) (e : Error)
    → str_eq c.health_bucket "" ≡ true
    → s.head_bucket client (probe_bucket c) ≡ some e
    → health s c (some client)
      ≡ (if status_code s e == 403 || status_code s e == 404 then none else some e)
unfolding health probe verify_connectivity
health-lenient s c client e b h = rw (h, b) (judge_lenient s (probe_bucket c) e)

-- With a configured bucket, an error of HeadBucket that wraps neither of the package's two sentinels
-- always makes Health fail: with ErrProbeForbidden among the causes if and only if the status is 403,
-- ErrProbeBucketMissing if and only if it is 404, and always every cause of that error.
pub health-strict :
    (s : Server) (c : Config) (client : ℕ) (e : Error)
    → errors_is e s3_probe_forbidden ≡ false
    → errors_is e s3_probe_bucket_missing ≡ false
    → str_eq c.health_bucket "" ≡ false
    → s.head_bucket client (probe_bucket c) ≡ some e
    → IsToldApart s e (health s c (some client))
unfolding health probe verify_connectivity
health-strict s c client e f m b h = rw (h, b) (judge_strict s (probe_bucket c) e f m)
