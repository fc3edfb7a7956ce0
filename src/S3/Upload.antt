-- ===== src/S3/Upload.antt =====
-- s3/upload.go: Upload, which streams the body after a look at its first bytes.
pub mod Stream
use Prim.Native.String.{slice, len}
use samsara_components.Prelude.{
  ℕ, zero, suc, ◌+◌, ◌-◌, ◌<◌, ◌≤◌, String, Bool, true, false, not, ◌||◌, ◌&&◌, ◌≡◌, ◌==◌, refl,
  List, [], ◌∷◌, ◌++◌, Option, none, some, arith, str_eq, length, leb, ap, sym, ◌∙◌, if◌then◌else◌,
  Bool-cases, Option-cases, inl, inr, ◌⊎◌,
}
use samsara_components.Go.Errors.{
  Error, sentinel, errorf, newf, errors_is, io_eof, io_unexpected_eof,
}
use samsara_components.S3.Observe.{err_not_ready}

-- An `io.Reader`: the bytes that it still yields, and what it then ends with: `io.EOF`, or an error,
-- which it keeps returning.
pub record Reader : Type 0 where
  pub bytes : List ℕ
  pub end : Option Error

pub record UploadRequest : Type 0 where
  pub bucket : String
  pub key : String
  pub body : Option Reader
  pub content_type : String
  pub acl : String

pub record PutParams : Type 0 where
  pub bucket : String
  pub key : String
  pub body : Reader
  pub content_type : String
  pub acl : String

-- `http.DetectContentType`, and the case tables of Unicode.
pub record Texts : Type 0 where
  pub detect : List ℕ → String
  pub to_lower : String → String
  pub bytes_to_lower : List ℕ → List ℕ

abbrev pub sniff_len : ℕ
sniff_len = 512

-- `head[:n]` and what follows it.
unfoldable pub take : ℕ → List ℕ → List ℕ
take zero bs = []
take (suc n) [] = []
take (suc n) (b ∷ bs) = b ∷ take n bs

unfoldable pub drop : ℕ → List ℕ → List ℕ
drop zero bs = bs
drop (suc n) [] = []
drop (suc n) (b ∷ bs) = drop n bs

-- The error of `io.ReadFull` where the reader ends early, having yielded `n` bytes.
abbrev pub short_read : (n : ℕ) → (end : Option Error) → Error
short_read zero none = sentinel io_eof
short_read (suc n) none = sentinel io_unexpected_eof
short_read n (some e) = e

-- `io.ReadFull` into a buffer: what was read, the error, and the reader after it.
unfoldable pub read_full : ℕ → Reader → (List ℕ × Option Error) × Reader
unfolding take drop
read_full n r = (
  (
    take n r.bytes,
    if leb n (length r.bytes) then none else some (short_read (length r.bytes) r.end),
  ),
  record { bytes = drop n r.bytes; end = r.end },
)

-- `io.MultiReader(bytes.NewReader(head), body)`
abbrev pub multi_reader : List ℕ → Reader → Reader
multi_reader head r = record { bytes = head ++ r.bytes; end = r.end }

-- `err == io.EOF`, `err == io.ErrUnexpectedEOF`: the sentinel itself, not an error that wraps it.
abbrev pub is_eof : Error → Bool
is_eof (sentinel io_eof) = true
is_eof _ = false

abbrev pub is_unexpected_eof : Error → Bool
is_unexpected_eof (sentinel io_unexpected_eof) = true
is_unexpected_eof _ = false

abbrev pub begins_with : (part bs : List ℕ) → Bool
begins_with [] bs = true
begins_with (p ∷ part) [] = false
begins_with (p ∷ part) (b ∷ bs) = p == b && begins_with part bs

-- `bytes.Contains`
abbrev pub contains : (bs part : List ℕ) → Bool
contains [] part = begins_with part []
contains (b ∷ bs) part = begins_with part (b ∷ bs) || contains bs part

-- `strings.HasSuffix`
abbrev pub has_suffix : String → String → Bool
has_suffix s t = str_eq (slice s (len s - len t) (len s)) t

-- `[]byte("<svg")`
abbrev pub svg_tag : List ℕ
svg_tag = 60 ∷ 115 ∷ 118 ∷ 103 ∷ []

unfoldable pub content_type_of : Texts → (key : String) → (head : List ℕ) → String
content_type_of t key head =
    if has_suffix (t.to_lower key) ".svg" || contains (t.bytes_to_lower head) svg_tag
    then "image/svg+xml"
    else t.detect head

-- An error, or the content type and the reader that replaces the body.
abbrev pub Sniffed : Type 0
Sniffed = Error ⊎ (String × Reader)

-- What sniffContentType makes of the read.
unfoldable pub sniffed : Texts → (key : String) → (List ℕ × Option Error) × Reader → Sniffed
unfolding content_type_of
sniffed t key ((head, none), rest) = inr (content_type_of t key head, multi_reader head rest)
sniffed t key ((head, some e), rest) =
    if not (is_eof e) && not (is_unexpected_eof e)
    then inl e
    else inr (content_type_of t key head, multi_reader head rest)

unfoldable pub sniff_content_type : Texts → (key : String) → Reader → Sniffed
sniff_content_type t key body = sniffed t key (read_full sniff_len body)

-- What Upload returns, and the parameters of the write that it asks the engine for, if it does.
abbrev pub Uploaded : Type 0
Uploaded = Option Error × Option PutParams

abbrev pub acl_or_private : String → String
acl_or_private acl = if str_eq acl "" then "private" else acl

abbrev pub put_params : UploadRequest → (content_type : String) → Reader → PutParams
put_params r content_type body = record {
  bucket = r.bucket;
  key = r.key;
  body = body;
  content_type = content_type;
  acl = acl_or_private r.acl;
}

abbrev pub put_error : UploadRequest → Option Error → Option Error
put_error r none = none
put_error r (some e) = some (errorf "s3 upload %q/%q: %w" (r.bucket ∷ r.key ∷ []) e)

module _ (t : Texts) (put : (engine : ℕ) → PutParams → Option Error) (engine : ℕ) where
  unfoldable pub put_object : UploadRequest → (content_type : String) → Reader → Uploaded
  put_object r content_type body =
      let p = put_params r content_type body in (put_error r (put engine p), some p)

  abbrev pub put_sniffed : UploadRequest → Sniffed → Uploaded
  put_sniffed r (inl e) = (some (errorf "s3 upload: content-type detection: %w" [] e), none)
  put_sniffed r (inr (content_type, body)) = put_object r content_type body

  unfoldable pub upload_body : UploadRequest → Option Reader → Uploaded
  unfolding put_object
  upload_body r none = (some (newf "s3 upload: body is required" []), none)
  upload_body r (some body) =
      if str_eq r.content_type ""
      then put_sniffed r (sniff_content_type t r.key body)
      else put_object r r.content_type body

unfoldable pub upload :
    Texts
    → (put : (engine : ℕ) → PutParams → Option Error) → (engine : Option ℕ) → UploadRequest
    → Uploaded
unfolding upload_body
upload t put none r = (some err_not_ready, none)
upload t put (some engine) r =
    if str_eq r.bucket "" || str_eq r.key ""
    then (some (newf "s3 upload: bucket and key are required" []), none)
    else upload_body t put engine r r.body
