-- ===== src/Tests/Buckets.antt =====
-- Inputs for package s3.
use mathlib.Core.List.{flatten}
use samsara_components.Prelude.{
  ℕ, zero, suc, String, true, false, ◌≡◌, refl, [], ◌∷◌, Option, none, some, arith, pos, negsuc,
  inr, if◌then◌else◌, ◌⊎◌,
}
use samsara_components.Go.Errors.{Error, foreign, errors_is}
use samsara_components.S3.Storage as S3Storage
use samsara_components.S3.Storage.Reports.{storage_reports, IsReportedLoop, returned}
use samsara_components.S3.Storage.Clean.{IsForeign, is_clean}
use samsara_components.S3.Config as S3Config
use samsara_components.S3.Connect as S3Connect
use samsara_components.S3.Connect.{start-health}
use samsara_components.S3.Lifecycle as S3Lifecycle
use samsara_components.S3.Lifecycle.Together.{no_handles, IsWhole, run-together}
use samsara_components.S3.Objects as Objects
use samsara_components.S3.Objects.{Client, Page, PresignRequest, list_keys, page_keys}
use samsara_components.S3.Listing.{Listing, delete_by_prefix_lem}
use samsara_components.S3.Upload.{
  Reader, UploadRequest, Texts, upload, put_params, take, content_type_of,
}
use samsara_components.S3.Upload.Stream.{upload-sniffed}
use samsara_components.S3.Probe.{Server, health, health-strict, IsToldApart}
use samsara_components.Tests.Stores.{bad_sink, restarts}

abbrev s3_config : S3Config.Config
s3_config = record {
  endpoint = "";
  region = "eu";
  key_id = "id";
  secret = "secret";
  connect_timeout = pos 0;
  presign_ttl = negsuc 0;
  upload_part_size = pos 1000;
  upload_concurrency = pos 0;
  health_bucket = "";
  path_style_forcing = false;
}

abbrev two_pages : (round : ℕ) → Page × Option Error
two_pages zero = (
  record { contents = some "a" ∷ none ∷ []; is_truncated = some true; next_token = some "t" },
  none,
)
two_pages (suc n) =
    (record { contents = some "b" ∷ []; is_truncated = none; next_token = none }, none)

pages_clean : (round : ℕ) → is_clean (two_pages round).1 ≡ true
unfolding is_clean
pages_clean zero = refl
pages_clean (suc n) = refl

abbrev store : Client String
store = record {
  get_object = λ c b k. (some "body", none);
  delete_object = λ c b k. none;
  list_objects = λ c round b p t. two_pages round;
  delete_objects = λ c b ks. none;
  presign_get = λ c b k t. ("url", none);
  presign_put = λ c b k ct cl t. ("url", none);
}

delete_by_prefix_lem_example : list_keys store (some 1) 3 "bucket" "" ≡ some ("a" ∷ "b" ∷ [], none)
unfolding page_keys flatten
delete_by_prefix_lem_example =
    (delete_by_prefix_lem store 1 "bucket" "" (("a" ∷ []) ∷ ("b" ∷ []) ∷ []) none 3 refl
      (Listing.more {page = (two_pages 0).0} refl refl
        (Listing.last {page = (two_pages 1).0} refl (λ e. absurd cc)))
      (omega arith)).0

abbrev s3_texts : Texts
s3_texts = record { detect = λ head. "text/plain"; to_lower = λ s. s; bytes_to_lower = λ bs. bs }

abbrev short_body : Reader
short_body = record { bytes = 104 ∷ 105 ∷ []; end = none }

abbrev put_ok : UploadRequest
put_ok = record { bucket = "b"; key = "k.txt"; body = some short_body; content_type = ""; acl = "" }

upload-sniffed_example :
    upload s3_texts (λ h p. none) (some 1) put_ok
    ≡ (none, some (put_params put_ok "text/plain" short_body))
unfolding take content_type_of
upload-sniffed_example =
    upload-sniffed s3_texts (λ h p. none) 1 put_ok short_body refl refl refl (inr refl)

-- A server on which every bucket is forbidden.
abbrev forbidding : Server
forbidding = record { head_bucket = λ c b. some (foreign 4); http_status = λ e. some 403 }

health-strict_example :
    IsToldApart forbidding
      (foreign 4)
      (health forbidding (record s3_config { health_bucket = "mine" }) (some 1))
unfolding errors_is
health-strict_example =
    health-strict forbidding (record s3_config { health_bucket = "mine" }) 1 (foreign 4) refl refl
      refl refl

abbrev no_request : PresignRequest
no_request = record {
  bucket = "";
  key = "";
  ttl = pos 0;
  content_type = "";
  content_length = pos 0;
}

store-IsForeign : IsForeign store
unfolding is_clean
store-IsForeign = record {
  gets = λ h b k. refl;
  deletes = λ h b k. refl;
  lists = λ h round b p t. pages_clean round;
  deletes_all = λ h b ks. refl;
  presigns_get = λ h b k ttl. refl;
  presigns_put = λ h b k t l ttl. refl;
}

put_reads : (body : Reader) → put_ok.body ≡ some body → is_clean body.end ≡ true
unfolding is_clean
put_reads body e = let same : short_body ≡ body = cc in rw (← same) refl

-- The client is gone when the listing within asks for it.
storage_reports_example :
    IsReportedLoop bad_sink "s3.delete_by_prefix"
      (pos 7)
      false
      (returned (Objects.delete_by_prefix store (some 1) none 3 "b" "k"))
      (S3Storage.delete_by_prefix store bad_sink (pos 7) (some 1) none 3 "b" "k")
unfolding is_clean errors_is
storage_reports_example =
    (storage_reports store store-IsForeign s3_texts (λ h p. none) (λ h p. refl) bad_sink (pos 7)
      s3_config (some 1) none 3 "b" "k" no_request put_ok put_reads).6

abbrev sdk : S3Connect.Library (Unit {0})
sdk = record {
  load = λ region key_id secret. inr 4;
  options = λ aws. record { use_path_style = true; base_endpoint = none; rest = tt };
  new_client = λ o. if o.use_path_style then 8 else 9;
}

-- The probe of thread 0 passes; thread 1 stops, and thread 2 starts again.
abbrev willing : Server
willing = record forbidding { head_bucket = λ c b. none }

run-together_example :
    let w =
      S3Lifecycle.run (λ i. S3Connect.start sdk willing s3_config []) S3Lifecycle.new restarts in
    ((w.live ≡ no_handles) ⊎ ((i : ℕ) × IsWhole s3_config willing w.live)) × (w.panicked ≡ false)
unfolding S3Connect.start
run-together_example = run-together sdk s3_config (λ i. []) (λ i. willing) restarts
