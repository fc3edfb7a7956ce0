-- ===== src/S3/Storage/Reports.antt =====
-- What the exported operations of package s3 report, with and without a live handle.
use samsara_components.Prelude.{
  ℕ, String, Bool, true, ◌||◌, ◌&&◌, ◌≡◌, refl, List, Option, none, some, ℤ, pos, arith, str_eq,
  is_some, if◌then◌else◌, inl, inr, Bool-cases,
}
use samsara_components.Go.Errors.{Error, errors_is}
use samsara_components.Go.Report.{Sink, Observed, reports, owed}
use samsara_components.S3.Config.{Config}
use samsara_components.S3.Observe.{observe, observe_err, timed, reports-observe}
use samsara_components.S3.Objects as Objects
use samsara_components.S3.Objects.{
  Client, Page, PresignRequest, Keys, or_empty, wrap_err, is_last, page_keys, list_page, list_loop,
  delete_result, delete_listed,
}
use samsara_components.S3.Upload as Upload
use samsara_components.S3.Upload.{
  Reader, UploadRequest, PutParams, Texts, Sniffed, short_read, is_eof, is_unexpected_eof, sniffed,
  read_full, sniff_content_type, put_error, put_params, put_object, put_sniffed, upload_body,
}
use samsara_components.S3.Storage.{
  map_option, download, delete, list_keys, delete_by_prefix, presign_download, presign_upload,
  upload,
}
use samsara_components.S3.Storage.Clean.{
  is_clean, IsForeign, download-clean, delete-clean, presign_download-clean, presign_upload-clean,
  list_keys-clean, listed-clean, upload-clean,
}

-- What the unexported operation returned is handed on, and a set sink is handed one report: this operation,
-- that error, and the elapsed time if the operation was attempted, or zero.
abbrev pub IsReported :
    {T : Type 0}
    → Sink
    → String
    → (elapsed : ℤ) → (attempted : Bool) → T × Option Error
    → Observed T
    → Type 0
IsReported sink op elapsed attempted (v, err) o =
    (o.value ≡ v)
    × (o.err ≡ err)
    × (reports o.notes
        ≡ owed sink (record { op = op; d = if attempted then elapsed else pos 0; err = err }))

timed-clean :
    (err : Option Error) (elapsed : ℤ)
    → timed err elapsed ≡ (if is_clean err then elapsed else pos 0)
unfolding is_clean
timed-clean none elapsed = refl
timed-clean (some e) elapsed = ground arith

observe-IsReported :
    {T : Type 0} (sink : Sink) (op : String) (elapsed : ℤ) (attempted : Bool)
    (result : T × Option Error)
    → is_clean result.1 ≡ attempted
    → IsReported sink op elapsed attempted result (observe sink op elapsed result)
observe-IsReported sink op elapsed attempted (v, err) c = (
  unfold observe in refl,
  unfold observe in refl,
  rw (reports-observe sink op elapsed (v, err), timed-clean err elapsed, c) refl,
)

-- The same of an operation whose loop runs on fuel, if it ends.
abbrev pub IsReportedLoop :
    {T : Type 0}
    → Sink
    → String
    → (elapsed : ℤ) → (attempted : Bool) → Option (T × Option Error)
    → Option (Observed T)
    → Type 0
IsReportedLoop sink op elapsed attempted none o = o ≡ none
IsReportedLoop {T} sink op elapsed attempted (some r) o =
    (x : Observed T) × (o ≡ some x) × IsReported sink op elapsed attempted r x

loop-IsReported :
    {T : Type 0} (sink : Sink) (op : String) (elapsed : ℤ) (attempted : Bool)
    (result : Option (T × Option Error))
    → ((r : T × Option Error) → result ≡ some r → is_clean r.1 ≡ attempted)
    → IsReportedLoop sink op elapsed attempted result (map_option (observe sink op elapsed) result)
loop-IsReported sink op elapsed attempted none c = refl
loop-IsReported sink op elapsed attempted (some r) c =
    (observe sink op elapsed r, refl, observe-IsReported sink op elapsed attempted r (c r refl))

-- What deleteByPrefix returns, without the requests that it sends.
abbrev pub returned : Option ((ℕ × Option Error) × List (List String)) → Option (ℕ × Option Error)
returned none = none
returned (some (r, sent)) = some r

module _ {Body : Type 0} (s : Client Body) (foreign : IsForeign s) (fuel : ℕ) (b p : String) where
  within-clean :
      (h : ℕ) (listing : Option ℕ) (l : Option Keys)
      → Objects.list_keys s listing fuel b p ≡ l
      → (r : ℕ × Option Error)
      → returned (elim l [ none ↦ none | some keys ↦ some (delete_listed s h b p keys) ]) ≡ some r
      → is_clean r.1 ≡ is_some listing
  within-clean h listing none e r k = absurd cc
  within-clean h listing (some keys) e r k =
      let same : (delete_listed s h b p keys).0 ≡ r = cc in
      rw (← same)
        (rw (listed-clean s foreign h b p keys) (list_keys-clean s foreign listing fuel b p keys e))

  delete_by_prefix-clean :
      (client listing : Option ℕ) (r : ℕ × Option Error)
      → returned (Objects.delete_by_prefix s client listing fuel b p) ≡ some r
      → is_clean r.1 ≡ (is_some client && (is_some listing || str_eq b ""))
  unfolding Objects.delete_by_prefix is_clean errors_is
  delete_by_prefix-clean none listing r k = ground (arith, k)
  delete_by_prefix-clean (some h) listing r k = elim (Bool-cases (str_eq b "")) [
    | inl e ↦ ground (arith, k, e)
    | inr e ↦
        ground (arith, k, e, within-clean h listing (Objects.list_keys s listing fuel b p) refl r)
  ]

observe-returned :
    (sink : Sink) (op : String) (elapsed : ℤ)
    (result : Option ((ℕ × Option Error) × List (List String)))
    → map_option (λ r. observe sink op elapsed r.0) result
      ≡ map_option (observe sink op elapsed) (returned result)
observe-returned sink op elapsed none = refl
observe-returned sink op elapsed (some (r, sent)) = refl

-- Each of the seven exported operations hands on what its unexported form returns, and a set sink is handed
-- one report of it, with the operation's name, the error that is returned, and the elapsed time if there was
-- a handle or zero if there was none. For DeleteByPrefix the listing within has to have found a client too,
-- unless the bucket is empty; ListKeys and DeleteByPrefix return and report nothing if they run out of fuel.
-- The AWS client and a request's body do not answer with ErrNotReady among the causes.
pub storage_reports :
    {Body : Type 0} (s : Client Body) (foreign : IsForeign s) (t : Texts)
    (put : (engine : ℕ) → PutParams → Option Error)
    (puts : (engine : ℕ) (q : PutParams) → is_clean (put engine q) ≡ true) (sink : Sink)
    (elapsed : ℤ) (c : Config) (handle listing : Option ℕ) (fuel : ℕ) (b k : String)
    (r : PresignRequest) (u : UploadRequest)
    (reads : (body : Reader) → u.body ≡ some body → is_clean body.end ≡ true)
    → IsReported sink "s3.download" elapsed
        (is_some handle)
        (Objects.download s handle b k)
        (download s sink elapsed handle b k)
      × IsReported sink "s3.delete" elapsed
          (is_some handle)
          (tt, Objects.delete s handle b k)
          (delete s sink elapsed handle b k)
      × IsReported sink "s3.presign_download" elapsed
          (is_some handle)
          (Objects.presign_download s c handle r)
          (presign_download s sink elapsed c handle r)
      × IsReported sink "s3.presign_upload" elapsed
          (is_some handle)
          (Objects.presign_upload s c handle r)
          (presign_upload s sink elapsed c handle r)
      × IsReported sink "s3.upload" elapsed
          (is_some handle)
          (tt, (Upload.upload t put handle u).0)
          (upload t put sink elapsed handle u)
      × IsReportedLoop sink "s3.list_keys" elapsed
          (is_some handle)
          (Objects.list_keys s handle fuel b k)
          (list_keys s sink elapsed handle fuel b k)
      × IsReportedLoop sink "s3.delete_by_prefix" elapsed
          (is_some handle && (is_some listing || str_eq b ""))
          (returned (Objects.delete_by_prefix s handle listing fuel b k))
          (delete_by_prefix s sink elapsed handle listing fuel b k)
unfolding download delete list_keys delete_by_prefix presign_download presign_upload upload
    observe_err
storage_reports s foreign t put puts sink elapsed c handle listing fuel b k r u reads = (
  observe-IsReported sink "s3.download" elapsed (is_some handle) (Objects.download s handle b k)
      (download-clean s foreign handle b k),
  observe-IsReported sink "s3.delete" elapsed (is_some handle) (tt, Objects.delete s handle b k)
      (delete-clean s foreign handle b k),
  observe-IsReported sink "s3.presign_download" elapsed (is_some handle)
      (Objects.presign_download s c handle r) (presign_download-clean s foreign c handle r),
  observe-IsReported sink "s3.presign_upload" elapsed (is_some handle)
      (Objects.presign_upload s c handle r) (presign_upload-clean s foreign c handle r),
  observe-IsReported sink "s3.upload" elapsed (is_some handle)
      (tt, (Upload.upload t put handle u).0) (upload-clean t put puts handle u reads),
  loop-IsReported sink "s3.list_keys" elapsed (is_some handle) (Objects.list_keys s handle fuel b k)
      (list_keys-clean s foreign handle fuel b k),
  rw
      (observe-returned sink "s3.delete_by_prefix" elapsed
        (Objects.delete_by_prefix s handle listing fuel b k))
      (loop-IsReported sink "s3.delete_by_prefix" elapsed
        (is_some handle && (is_some listing || str_eq b ""))
        (returned (Objects.delete_by_prefix s handle listing fuel b k))
        (delete_by_prefix-clean s foreign fuel b k handle listing)),
)
