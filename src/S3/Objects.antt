-- ===== src/S3/Objects.antt =====
-- s3/operations.go: the unexported forms of the operations, which `observe` then reports. The AWS client
-- is a record of the requests that they send.
use samsara_components.Prelude.{
  ℕ, zero, suc, String, Bool, true, false, ◌||◌, List, [], ◌∷◌, ◌++◌, Option, none, some, ℤ, str_eq,
  is_pos, is_zero, length, if◌then◌else◌,
}
use samsara_components.Go.Errors.{Error, errorf, newf}
use samsara_components.S3.Config.{Config, presign_ttl}
use samsara_components.S3.Observe.{err_not_ready}

-- One answer of ListObjectsV2, with its optional fields.
pub record Page : Type 0 where
  pub contents : List (Option String)
  pub is_truncated : Option Bool
  pub next_token : Option String

-- `round` counts the requests of one listing.
pub record Client (Body : Type 0) : Type 0 where
  pub get_object : (client : ℕ) (bucket key : String) → Option Body × Option Error
  pub delete_object : (client : ℕ) (bucket key : String) → Option Error
  pub list_objects :
      (client round : ℕ) (bucket prefix : String) (token : Option String) → Page × Option Error
  pub delete_objects : (client : ℕ) (bucket : String) (keys : List String) → Option Error
  pub presign_get : (presigner : ℕ) (bucket key : String) (ttl : ℤ) → String × Option Error
  pub presign_put :
      (presigner : ℕ) (bucket key : String) (content_type : Option String)
      (content_length : Option ℤ) (ttl : ℤ)
      → String × Option Error

pub record PresignRequest : Type 0 where
  pub bucket : String
  pub key : String
  pub ttl : ℤ
  pub content_type : String
  pub content_length : ℤ

-- What a listing returns, the text of a wrapped error, and a value that an error replaces.
abbrev pub or_empty :
    {T : Type 0} → (empty : T) → (Error → Error) → T × Option Error → T × Option Error
or_empty empty wrap (v, none) = (v, none)
or_empty empty wrap (v, some e) = (empty, some (wrap e))

abbrev pub wrap_err : (Error → Error) → Option Error → Option Error
wrap_err wrap none = none
wrap_err wrap (some e) = some (wrap e)

-- The keys that a page names.
unfoldable pub page_keys : List (Option String) → List String
page_keys [] = []
page_keys (none ∷ os) = page_keys os
page_keys (some key ∷ os) = key ∷ page_keys os

-- `out.IsTruncated == nil || !*out.IsTruncated`
abbrev pub is_last : Option Bool → Bool
is_last none = true
is_last (some false) = true
is_last (some true) = false

abbrev pub Keys : Type 0
Keys = List String × Option Error

module _ {Body : Type 0} (s : Client Body) where
  -- One round of the listing loop, from the answer on; `again` is the next round.
  abbrev pub list_page :
      (bucket prefix : String) (keys : List String)
      → (Option String → List String → Option Keys)
      → Page × Option Error
      → Option Keys
  list_page bucket prefix keys again (page, some e) =
      some ([], some (errorf "s3 list-keys %q/%q: %w" (bucket ∷ prefix ∷ []) e))
  list_page bucket prefix keys again (page, none) =
      if is_last page.is_truncated
      then some (keys ++ page_keys page.contents, none)
      else again page.next_token (keys ++ page_keys page.contents)

  -- The loop of listKeys, on fuel: `none` means that the fuel ran out.
  unfoldable pub list_loop :
      (client : ℕ) (bucket prefix : String) (fuel round : ℕ) (token : Option String)
      (keys : List String)
      → Option Keys
  unfolding page_keys
  list_loop client bucket prefix zero round token keys = none
  list_loop client bucket prefix (suc fuel) round token keys =
      list_page bucket prefix keys (list_loop client bucket prefix fuel (suc round))
        (s.list_objects client round bucket prefix token)

  unfoldable pub list_keys : (client : Option ℕ) (fuel : ℕ) (bucket prefix : String) → Option Keys
  unfolding list_loop
  list_keys none fuel bucket prefix = some ([], some err_not_ready)
  list_keys (some client) fuel bucket prefix =
      if str_eq bucket ""
      then some ([], some (newf "s3 list-keys: bucket is required" []))
      else list_loop client bucket prefix fuel 0 none []

  -- What deleteByPrefix returns, and the DeleteObjects requests that it sends.
  abbrev pub Deleted : Type 0
  Deleted = (ℕ × Option Error) × List (List String)

  abbrev pub delete_result :
      (bucket prefix : String) (keys : List String) → Option Error → ℕ × Option Error
  delete_result bucket prefix keys none = (length keys, none)
  delete_result bucket prefix keys (some e) =
      (0, some (errorf "s3 delete-by-prefix %q/%q: %w" (bucket ∷ prefix ∷ []) e))

  abbrev pub delete_listed : (client : ℕ) (bucket prefix : String) → Keys → Deleted
  delete_listed client bucket prefix (keys, some e) =
      ((0, some (errorf "s3 delete-by-prefix: list: %w" [] e)), [])
  delete_listed client bucket prefix ([], none) = ((0, none), [])
  delete_listed client bucket prefix (key ∷ keys, none) = (
    delete_result bucket prefix (key ∷ keys) (s.delete_objects client bucket (key ∷ keys)),
    (key ∷ keys) ∷ [],
  )

  -- The listing fetches the client again; `listing` is the one that it finds.
  unfoldable pub delete_by_prefix :
      (client listing : Option ℕ) (fuel : ℕ) (bucket prefix : String) → Option Deleted
  unfolding list_keys
  delete_by_prefix none listing fuel bucket prefix = some ((0, some err_not_ready), [])
  delete_by_prefix (some client) listing fuel bucket prefix =
      if str_eq bucket ""
      then some ((0, some (newf "s3 delete-by-prefix: bucket is required" [])), [])
      else elim (list_keys listing fuel bucket prefix) [
        | none ↦ none
        | some keys ↦ some (delete_listed client bucket prefix keys)
      ]

  unfoldable pub download : (client : Option ℕ) (bucket key : String) → Option Body × Option Error
  download none bucket key = (none, some err_not_ready)
  download (some client) bucket key =
      if str_eq bucket "" || str_eq key ""
      then (none, some (newf "s3 download: bucket and key are required" []))
      else or_empty none (errorf "s3 download %q/%q: %w" (bucket ∷ key ∷ []))
          (s.get_object client bucket key)

  unfoldable pub delete : (client : Option ℕ) (bucket key : String) → Option Error
  delete none bucket key = some err_not_ready
  delete (some client) bucket key =
      if str_eq bucket "" || str_eq key ""
      then some (newf "s3 delete: bucket and key are required" [])
      else wrap_err (errorf "s3 delete %q/%q: %w" (bucket ∷ key ∷ []))
          (s.delete_object client bucket key)

  -- `if ttl == 0 { ttl = c.cfg.presignTTL() }`
  unfoldable pub ttl_of : Config → PresignRequest → ℤ
  unfolding presign_ttl
  ttl_of c r = if is_zero r.ttl then presign_ttl c else r.ttl

  unfoldable pub presign_download :
      Config → (presigner : Option ℕ) → PresignRequest → String × Option Error
  unfolding ttl_of
  presign_download c none r = ("", some err_not_ready)
  presign_download c (some presigner) r =
      if str_eq r.bucket "" || str_eq r.key ""
      then ("", some (newf "s3 presign-download: bucket and key are required" []))
      else or_empty "" (errorf "s3 presign-download %q/%q: %w" (r.bucket ∷ r.key ∷ []))
          (s.presign_get presigner r.bucket r.key (ttl_of c r))

  -- The optional headers that the URL is signed for.
  abbrev pub signed_type : PresignRequest → Option String
  signed_type r = if str_eq r.content_type "" then none else some r.content_type

  abbrev pub signed_length : PresignRequest → Option ℤ
  signed_length r = if is_pos r.content_length then some r.content_length else none

  unfoldable pub presign_upload :
      Config → (presigner : Option ℕ) → PresignRequest → String × Option Error
  unfolding ttl_of
  presign_upload c none r = ("", some err_not_ready)
  presign_upload c (some presigner) r =
      if str_eq r.bucket "" || str_eq r.key ""
      then ("", some (newf "s3 presign-upload: bucket and key are required" []))
      else or_empty "" (errorf "s3 presign-upload %q/%q: %w" (r.bucket ∷ r.key ∷ []))
          (s.presign_put presigner r.bucket r.key (signed_type r) (signed_length r) (ttl_of c r))
