-- ===== src/S3/Storage.antt =====
-- The exported operations of s3/operations.go and s3/upload.go: the unexported forms, observed.
pub mod Clean
pub mod Reports
use samsara_components.Prelude.{ℕ, String, List, Option, none, some, ℤ}
use samsara_components.Go.Errors.{Error}
use samsara_components.Go.Report.{Sink, Observed}
use samsara_components.S3.Config.{Config}
use samsara_components.S3.Observe.{observe, observe_err}
use samsara_components.S3.Objects as Objects
use samsara_components.S3.Objects.{Client, PresignRequest}
use samsara_components.S3.Upload as Upload
use samsara_components.S3.Upload.{UploadRequest, PutParams, Texts}

abbrev pub map_option : {A B : Type 0} → (A → B) → Option A → Option B
map_option f none = none
map_option f (some a) = some (f a)

module _ {Body : Type 0} (s : Client Body) (sink : Sink) (elapsed : ℤ) where
  unfoldable pub download : (client : Option ℕ) (bucket key : String) → Observed (Option Body)
  download client bucket key =
      observe sink "s3.download" elapsed (Objects.download s client bucket key)

  unfoldable pub delete : (client : Option ℕ) (bucket key : String) → Observed (Unit {0})
  delete client bucket key =
      observe_err sink "s3.delete" elapsed (Objects.delete s client bucket key)

  unfoldable pub list_keys :
      (client : Option ℕ) (fuel : ℕ) (bucket prefix : String) → Option (Observed (List String))
  list_keys client fuel bucket prefix =
      map_option (observe sink "s3.list_keys" elapsed)
        (Objects.list_keys s client fuel bucket prefix)

  -- The listing within is not observed.
  unfoldable pub delete_by_prefix :
      (client listing : Option ℕ) (fuel : ℕ) (bucket prefix : String) → Option (Observed ℕ)
  delete_by_prefix client listing fuel bucket prefix =
      map_option (λ r. observe sink "s3.delete_by_prefix" elapsed r.0)
        (Objects.delete_by_prefix s client listing fuel bucket prefix)

  unfoldable pub presign_download :
      Config → (presigner : Option ℕ) → PresignRequest → Observed String
  presign_download c presigner r =
      observe sink "s3.presign_download" elapsed (Objects.presign_download s c presigner r)

  unfoldable pub presign_upload : Config → (presigner : Option ℕ) → PresignRequest → Observed String
  presign_upload c presigner r =
      observe sink "s3.presign_upload" elapsed (Objects.presign_upload s c presigner r)

unfoldable pub upload :
    Texts
    → (put : (engine : ℕ) → PutParams → Option Error) → Sink
    → (elapsed : ℤ) → (engine : Option ℕ) → UploadRequest
    → Observed (Unit {0})
upload t put sink elapsed engine r =
    observe_err sink "s3.upload" elapsed (Upload.upload t put engine r).0
