-- ===== src/S3/Storage/Clean.antt =====
-- When the operations of package s3 answer with ErrNotReady among the causes.
use samsara_components.Prelude.{
  ℕ, zero, suc, String, Bool, true, not, ◌||◌, ◌≡◌, refl, List, [], ◌∷◌, ◌++◌, Option, none, some,
  ℤ, arith, str_eq, is_some, inl, inr, length, Bool-cases,
}
use samsara_components.Go.Errors.{Error, errorf, errors_is, s3_not_ready}
use samsara_components.S3.Config.{Config}
use samsara_components.S3.Objects as Objects
use samsara_components.S3.Objects.{
  Client, Page, PresignRequest, Keys, or_empty, wrap_err, is_last, page_keys, list_page, list_loop,
  delete_result, delete_listed,
}
use samsara_components.S3.Upload as Upload
use samsara_components.S3.Upload.{
  Reader, UploadRequest, PutParams, Texts, Sniffed, short_read, is_eof, is_unexpected_eof, sniffed,
  read_full, sniff_content_type, put_error, put_params, put_object, put_sniffed, upload_body,
}

-- No ErrNotReady among the causes.
unfoldable pub is_clean : Option Error → Bool
is_clean none = true
is_clean (some e) = not (errors_is e s3_not_ready)

or_empty-clean :
    {T : Type 0} (empty : T) (f : String) (args : List String) (r : T × Option Error)
    → is_clean r.1 ≡ true
    → is_clean (or_empty empty (errorf f args) r).1 ≡ true
unfolding is_clean errors_is
or_empty-clean empty f args (v, none) c = refl
or_empty-clean empty f args (v, some e) c = c

wrap_err-clean :
    (f : String) (args : List String) (r : Option Error)
    → is_clean r ≡ true
    → is_clean (wrap_err (errorf f args) r) ≡ true
unfolding is_clean errors_is
wrap_err-clean f args none c = refl
wrap_err-clean f args (some e) c = c

-- The AWS client never answers with ErrNotReady among the causes, which is the component's own.
pub record IsForeign {Body : Type 0} (s : Client Body) : Type 0 where
  pub gets : (h : ℕ) (b k : String) → is_clean (s.get_object h b k).1 ≡ true
  pub deletes : (h : ℕ) (b k : String) → is_clean (s.delete_object h b k) ≡ true
  pub lists :
      (h round : ℕ) (b p : String) (t : Option String)
      → is_clean (s.list_objects h round b p t).1 ≡ true
  pub deletes_all :
      (h : ℕ) (b : String) (ks : List String) → is_clean (s.delete_objects h b ks) ≡ true
  pub presigns_get : (h : ℕ) (b k : String) (ttl : ℤ) → is_clean (s.presign_get h b k ttl).1 ≡ true
  pub presigns_put :
      (h : ℕ) (b k : String) (t : Option String) (l : Option ℤ) (ttl : ℤ)
      → is_clean (s.presign_put h b k t l ttl).1 ≡ true

module _ {Body : Type 0} (s : Client Body) (foreign : IsForeign s) where
  pub download-clean :
      (handle : Option ℕ) (b k : String)
      → is_clean (Objects.download s handle b k).1 ≡ is_some handle
  unfolding Objects.download is_clean errors_is
  download-clean none b k = refl
  download-clean (some h) b k = ground (
    arith,
    or_empty-clean none "s3 download %q/%q: %w" (b ∷ k ∷ []) (s.get_object h b k)
        (foreign.gets h b k),
  )

  pub delete-clean :
      (handle : Option ℕ) (b k : String) → is_clean (Objects.delete s handle b k) ≡ is_some handle
  unfolding Objects.delete is_clean errors_is
  delete-clean none b k = refl
  delete-clean (some h) b k = ground (
    arith,
    wrap_err-clean "s3 delete %q/%q: %w" (b ∷ k ∷ []) (s.delete_object h b k)
        (foreign.deletes h b k),
  )

  pub presign_download-clean :
      (c : Config) (handle : Option ℕ) (r : PresignRequest)
      → is_clean (Objects.presign_download s c handle r).1 ≡ is_some handle
  unfolding Objects.presign_download is_clean errors_is
  presign_download-clean c none r = refl
  presign_download-clean c (some h) r = ground (
    arith,
    or_empty-clean "" "s3 presign-download %q/%q: %w" (r.bucket ∷ r.key ∷ [])
        (s.presign_get h r.bucket r.key (Objects.ttl_of s c r))
        (foreign.presigns_get h r.bucket r.key (Objects.ttl_of s c r)),
  )

  pub presign_upload-clean :
      (c : Config) (handle : Option ℕ) (r : PresignRequest)
      → is_clean (Objects.presign_upload s c handle r).1 ≡ is_some handle
  unfolding Objects.presign_upload is_clean errors_is
  presign_upload-clean c none r = refl
  presign_upload-clean c (some h) r = ground (
    arith,
    or_empty-clean "" "s3 presign-upload %q/%q: %w" (r.bucket ∷ r.key ∷ [])
        (s.presign_put h r.bucket r.key (Objects.signed_type s r) (Objects.signed_length s r)
          (Objects.ttl_of s c r))
        (foreign.presigns_put h r.bucket r.key (Objects.signed_type s r) (Objects.signed_length s r)
          (Objects.ttl_of s c r)),
  )

  -- A listing that ends is clean.
  abbrev IsCleanLoop : Option Keys → Type 0
  IsCleanLoop l = (r : Keys) → l ≡ some r → is_clean r.1 ≡ true

  page-clean :
      (b p : String) (keys : List String) (again : Option String → List String → Option Keys)
      (answer : Page × Option Error)
      → is_clean answer.1 ≡ true
      → ((t : Option String) (ks : List String) → IsCleanLoop (again t ks))
      → IsCleanLoop (list_page s b p keys again answer)
  unfolding is_clean errors_is
  page-clean b p keys again (page, some e) c h r k = ground (arith, c, k)
  page-clean b p keys again (page, none) c h r k =
      ground (arith, k, h page.next_token (keys ++ page_keys page.contents) r)

  loop-clean :
      (h fuel round : ℕ) (b p : String) (t : Option String) (keys : List String)
      → IsCleanLoop (list_loop s h b p fuel round t keys)
  unfolding list_loop
  loop-clean h zero round b p t keys = λ r k. absurd cc
  loop-clean h (suc fuel) round b p t keys =
      page-clean b p keys (list_loop s h b p fuel (suc round)) (s.list_objects h round b p t)
        (foreign.lists h round b p t) (λ t' ks. loop-clean h fuel (suc round) b p t' ks)

  pub list_keys-clean :
      (handle : Option ℕ) (fuel : ℕ) (b p : String) (r : Keys)
      → Objects.list_keys s handle fuel b p ≡ some r
      → is_clean r.1 ≡ is_some handle
  unfolding Objects.list_keys is_clean errors_is
  list_keys-clean none fuel b p r k = ground (arith, k)
  list_keys-clean (some h) fuel b p r k = ground (arith, k, loop-clean h fuel 0 b p none [] r)

  result-clean :
      (b p : String) (keys : List String) (r : Option Error)
      → is_clean r ≡ true
      → is_clean (delete_result s b p keys r).1 ≡ true
  unfolding is_clean errors_is
  result-clean b p keys none c = refl
  result-clean b p keys (some e) c = c

  pub listed-clean :
      (h : ℕ) (b p : String) (keys : Keys)
      → is_clean (delete_listed s h b p keys).0.1 ≡ is_clean keys.1
  unfolding is_clean errors_is
  listed-clean h b p (keys, some e) = refl
  listed-clean h b p ([], none) = refl
  listed-clean h b p (key ∷ keys, none) =
      result-clean b p (key ∷ keys) (s.delete_objects h b (key ∷ keys))
        (foreign.deletes_all h b (key ∷ keys))

-- The error of a read of the first bytes is the body's, or tells that the body has ended.
short_read-clean :
    (n : ℕ) (end : Option Error) (e : Error)
    → is_clean end ≡ true
    → short_read n end ≡ e
    → (is_clean (some e) || (is_eof e || is_unexpected_eof e)) ≡ true
unfolding is_clean errors_is
short_read-clean zero none e c h = rw (← h) refl
short_read-clean (suc n) none e c h = rw (← h) refl
short_read-clean zero (some x) e c h = ground (arith, c, h)
short_read-clean (suc n) (some x) e c h = ground (arith, c, h)

sniffed-clean :
    (t : Texts) (key : String) (body : Reader) (e : Error)
    → is_clean body.end ≡ true
    → sniff_content_type t key body ≡ inl e
    → is_clean (some e) ≡ true
unfolding sniff_content_type sniffed read_full
sniffed-clean t key body e c h = ground (
  arith,
  h,
  short_read-clean (length body.bytes) body.end (short_read (length body.bytes) body.end) c refl,
)

module _ (t : Texts) (put : (engine : ℕ) → PutParams → Option Error)
    (foreign : (engine : ℕ) (q : PutParams) → is_clean (put engine q) ≡ true) where
  put_error-clean :
      (u : UploadRequest) (r : Option Error) → is_clean r ≡ true → is_clean (put_error u r) ≡ true
  unfolding is_clean errors_is
  put_error-clean u none c = refl
  put_error-clean u (some e) c = c

  put_object-clean :
      (h : ℕ) (u : UploadRequest) (content_type : String) (body : Reader)
      → is_clean (put_object t put h u content_type body).0 ≡ true
  unfolding put_object
  put_object-clean h u content_type body =
      put_error-clean u (put h (put_params u content_type body))
        (foreign h (put_params u content_type body))

  put_sniffed-clean :
      (h : ℕ) (u : UploadRequest) (x : Sniffed)
      → ((e : Error) → x ≡ inl e → is_clean (some e) ≡ true)
      → is_clean (put_sniffed t put h u x).0 ≡ true
  unfolding is_clean errors_is
  put_sniffed-clean h u (inl e) c = c e refl
  put_sniffed-clean h u (inr (content_type, body)) c =
      unfold is_clean in put_object-clean h u content_type body

  body-clean :
      (h : ℕ) (u : UploadRequest) (body : Option Reader)
      → ((r : Reader) → body ≡ some r → is_clean r.end ≡ true)
      → is_clean (upload_body t put h u body).0 ≡ true
  unfolding upload_body is_clean errors_is
  body-clean h u none c = refl
  body-clean h u (some r) c = elim (Bool-cases (str_eq u.content_type "")) [
    | inl e ↦ rw e (
        put_sniffed-clean h u (sniff_content_type t u.key r)
          (λ x. sniffed-clean t u.key r x (c r refl)))
    | inr e ↦ rw e (put_object-clean h u u.content_type r)
  ]

  pub upload-clean :
      (handle : Option ℕ) (u : UploadRequest)
      → ((r : Reader) → u.body ≡ some r → is_clean r.end ≡ true)
      → is_clean (Upload.upload t put handle u).0 ≡ is_some handle
  unfolding Upload.upload is_clean errors_is
  upload-clean none u c = refl
  upload-clean (some h) u c = elim (Bool-cases (str_eq u.bucket "" || str_eq u.key "")) [
    | inl e ↦ rw e refl
    | inr e ↦ rw e (body-clean h u u.body c)
  ]
