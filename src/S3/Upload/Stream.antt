-- ===== src/S3/Upload/Stream.antt =====
-- The upload of s3/upload.go writes the whole body, whatever its content type is taken from.
use samsara_components.Prelude.{
  ℕ, zero, suc, ◌<◌, ◌≤◌, String, true, false, not, ◌&&◌, ◌||◌, ◌≡◌, refl, List, [], ◌∷◌, ◌++◌,
  Option, none, some, arith, str_eq, length, leb, ap, ◌⊎◌, inl, inr, if◌then◌else◌, Bool-cases,
}
use samsara_components.Go.Errors.{Error, errorf}
use samsara_components.S3.Upload.{
  Reader, UploadRequest, PutParams, Texts, sniff_len, take, drop, short_read, read_full,
  multi_reader, is_eof, is_unexpected_eof, content_type_of, sniffed, sniff_content_type, put_params,
  put_error, Uploaded, put_object, upload_body, upload,
}

take-drop : (n : ℕ) (bs : List ℕ) → take n bs ++ drop n bs ≡ bs
unfolding take drop
take-drop zero bs = refl
take-drop (suc n) [] = refl
take-drop (suc n) (b ∷ bs) = ap (λ l. b ∷ l) (take-drop n bs)

-- The replayed head and the rest are the stream again, with its own end.
replayed :
    (n : ℕ) (r : Reader)
    → multi_reader (take n r.bytes) (record { bytes = drop n r.bytes; end = r.end }) ≡ r
replayed n r = ap (λ bs. record { bytes = bs; end = r.end }) (take-drop n r.bytes)

-- The read of the head meets no error but the end of the body.
abbrev pub IsSniffable : Reader → Type 0
IsSniffable r = (sniff_len ≤ length r.bytes) ⊎ (r.end ≡ none)

le_or_lt : (n m : ℕ) → (n ≤ m) ⊎ (m < n)
le_or_lt n m = ground arith

leb-true : (n m : ℕ) → n ≤ m → leb n m ≡ true
leb-true n m h = ground arith

leb-false : (n m : ℕ) → m < n → leb n m ≡ false
leb-false n m h = ground arith

short_read-tolerated :
    (n : ℕ)
    → (not (is_eof (short_read n none)) && not (is_unexpected_eof (short_read n none))) ≡ false
short_read-tolerated zero = refl
short_read-tolerated (suc n) = refl

tolerated :
    (n : ℕ) (end : Option Error)
    → end ≡ none
    → (not (is_eof (short_read n end)) && not (is_unexpected_eof (short_read n end))) ≡ false
tolerated n end e = rw e (short_read-tolerated n)

module _ (t : Texts) (key : String) (r : Reader) where
  sniff_long :
      sniff_len ≤ length r.bytes
      → sniff_content_type t key r ≡ inr (content_type_of t key (take sniff_len r.bytes), r)
  unfolding sniff_content_type read_full sniffed
  sniff_long h =
      rw (leb-true sniff_len (length r.bytes) h)
        (ap (λ b. inr (content_type_of t key (take sniff_len r.bytes), b)) (replayed sniff_len r))

  sniff_short :
      length r.bytes < sniff_len
      → r.end ≡ none
      → sniff_content_type t key r ≡ inr (content_type_of t key (take sniff_len r.bytes), r)
  unfolding sniff_content_type read_full sniffed
  sniff_short h e =
      rw (leb-false sniff_len (length r.bytes) h, tolerated (length r.bytes) r.end e)
        (ap (λ b. inr (content_type_of t key (take sniff_len r.bytes), b)) (replayed sniff_len r))

  sniff_fails :
      (e : Error)
      → length r.bytes < sniff_len
      → r.end ≡ some e
      → is_eof e ≡ false
      → is_unexpected_eof e ≡ false
      → sniff_content_type t key r ≡ inl e
  unfolding sniff_content_type read_full sniffed
  sniff_fails e h k f u = rw (leb-false sniff_len (length r.bytes) h, k, f, u) refl

  sniff_reads :
      IsSniffable r
      → sniff_content_type t key r ≡ inr (content_type_of t key (take sniff_len r.bytes), r)
  sniff_reads (inl h) = sniff_long h
  sniff_reads (inr e) = elim (le_or_lt sniff_len (length r.bytes)) [
    | inl h ↦ sniff_long h
    | inr h ↦ sniff_short h e
  ]

module _ (t : Texts) (put : (engine : ℕ) → PutParams → Option Error) (engine : ℕ)
    (r : UploadRequest) (body : Reader) where
  -- What Upload returns if it asks the engine to write this body under this type.
  abbrev pub written : String → Uploaded
  written content_type = (
    put_error r (put engine (put_params r content_type body)),
    some (put_params r content_type body),
  )

  -- For a request that names its bucket and key, and has a body but no content type: if the first 512
  -- bytes can be read, or all of a body that ends sooner, the engine is asked to write that same body,
  -- from its first byte to its own end, under the type that those bytes and the key have.
  pub upload-sniffed :
      (str_eq r.bucket "" || str_eq r.key "") ≡ false
      → r.body ≡ some body
      → str_eq r.content_type "" ≡ true
      → IsSniffable body
      → upload t put (some engine) r ≡ written (content_type_of t r.key (take sniff_len body.bytes))
  unfolding upload upload_body put_object
  upload-sniffed named b c s = rw (named, b, c, sniff_reads t r.key body s) refl

  -- For a request that names its bucket and key, and has a body on which an error other than its end
  -- comes within the first 512 bytes: without a content type, nothing is written and Upload returns that
  -- error, wrapped; with one, the engine is asked to write the body all the same.
  pub upload-unreadable :
      (e : Error)
      → (str_eq r.bucket "" || str_eq r.key "") ≡ false
      → r.body ≡ some body
      → length body.bytes < sniff_len
      → body.end ≡ some e
      → is_eof e ≡ false
      → is_unexpected_eof e ≡ false
      → upload t put (some engine) r ≡ (
          if str_eq r.content_type ""
          then (some (errorf "s3 upload: content-type detection: %w" [] e), none)
          else written r.content_type)
  unfolding upload upload_body put_object
  upload-unreadable e named b h k f u = elim (Bool-cases (str_eq r.content_type "")) [
    | inl c ↦ rw (named, b, c, sniff_fails t r.key body e h k f u) refl
    | inr c ↦ rw (named, b, c) refl
  ]
