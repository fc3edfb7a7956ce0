-- ===== src/Fiber/Probe.antt =====
-- Health of fiber/fiber.go: the flag, and the request to the server's own health route.
use Prim.Native.String.{◌++◌ as cat}
use samsara_components.Prelude.{
  String, Bool, true, false, not, ◌≡◌, refl, [], ◌∷◌, Option, none, some, ◌⊎◌, inl, inr, ℤ, pos,
  negsuc, ◌==◌, if◌then◌else◌, arith, ◌↔◌,
}
use samsara_components.Go.Errors.{Error, newf, errorf}
use samsara_components.Fiber.Config.{Config, addr, path_prefix}

-- net/http: whether a request for a URL can be made, and the status of the answer to it, if one comes
-- within the health timeout; and the text of a status.
pub record Http : Type 0 where
  pub request_error : (url : String) → Option Error
  pub get : (url : String) → Error ⊎ ℤ
  pub status_text : ℤ → String

abbrev pub is_no_content : ℤ → Bool
is_no_content (pos n) = n == 204
is_no_content (negsuc n) = false

module _ {Handler : Type 0} (http : Http) (c : Config Handler) where
  unfoldable pub url : String
  unfolding addr path_prefix
  url = cat "http://" (cat (addr c) (cat (path_prefix c) "/health"))

  abbrev pub after_response : Error ⊎ ℤ → Option Error
  after_response (inl e) = some (errorf "fiber: health probe: %w" [] e)
  after_response (inr status) =
      if not (is_no_content status)
      then some (newf "fiber: health probe returned %d" (http.status_text status ∷ []))
      else none

  abbrev pub after_request : Option Error → Option Error
  after_request none = after_response (http.get url)
  after_request (some e) = some (errorf "fiber: health probe: %w" [] e)

  unfoldable pub health : (is_listening : Bool) → Option Error
  unfolding url
  health is_listening =
      if not is_listening
      then some (newf "fiber: server is not listening" [])
      else after_request (http.request_error url)

  response_iff : (r : Error ⊎ ℤ) → (after_response r ≡ none) ↔ (r ≡ inr (pos 204))
  response_iff (inl e) = (λ h. cc, λ h. cc)
  response_iff (inr (pos n)) = (λ h. ground arith, λ h. ground arith)
  response_iff (inr (negsuc n)) = (λ h. cc, λ h. cc)

  request_iff :
      (r : Option Error) → (after_request r ≡ none) ↔ ((r ≡ none) × (http.get url ≡ inr (pos 204)))
  request_iff none =
      (λ h. (refl, (response_iff (http.get url)).0 h), λ h. (response_iff (http.get url)).1 h.1)
  request_iff (some e) = (λ h. cc, λ h. cc)

  -- Health is nil if and only if the server has said that it listens, a request can be made for the
  -- health route under the configured address and prefix, and that route answers 204.
  pub health_iff :
      (is_listening : Bool)
      → (health is_listening ≡ none)
        ↔ ((is_listening ≡ true) × (http.request_error url ≡ none) × (http.get url ≡ inr (pos 204)))
  unfolding health
  health_iff true =
      let probe = request_iff (http.request_error url) in
      (λ h. (refl, (probe.0 h).0, (probe.0 h).1), λ h. probe.1 (h.1, h.2))
  health_iff false = (λ h. cc, λ h. cc)
