-- ===== src/S3/Config.antt =====
-- The Config of s3/s3.go and its defaults. Durations are nanoseconds, sizes bytes.
use samsara_components.Prelude.{
  String, Bool, arith, ℤ, pos, negsuc, is_pos, ltb_ℤ, str_eq, if◌then◌else◌, ◌≤ℤ◌, ◌<ℤ◌, max_ℤ, ◌≡◌,
}

pub record Config : Type 0 where
  pub endpoint : String
  pub region : String
  pub key_id : String
  pub secret : String
  pub connect_timeout : ℤ
  pub presign_ttl : ℤ
  pub upload_part_size : ℤ
  pub upload_concurrency : ℤ
  pub health_bucket : String
  pub path_style_forcing : Bool

unfoldable pub connect_timeout : Config → ℤ
connect_timeout c = if is_pos c.connect_timeout then c.connect_timeout else pos 10_000_000_000

unfoldable pub presign_ttl : Config → ℤ
presign_ttl c = if is_pos c.presign_ttl then c.presign_ttl else pos 900_000_000_000

-- `5 << 20`
abbrev pub min_upload_part_size : ℤ
min_upload_part_size = pos 5_242_880

-- The default is `8 << 20`.
unfoldable pub upload_part_size : Config → ℤ
upload_part_size c =
    if ltb_ℤ c.upload_part_size min_upload_part_size
    then if is_pos c.upload_part_size then min_upload_part_size else pos 8_388_608
    else c.upload_part_size

unfoldable pub upload_concurrency : Config → ℤ
upload_concurrency c = if is_pos c.upload_concurrency then c.upload_concurrency else pos 5

abbrev pub synthetic_probe_bucket : String
synthetic_probe_bucket = "samsara-health-probe"

unfoldable pub probe_bucket : Config → String
probe_bucket c = if str_eq c.health_bucket "" then synthetic_probe_bucket else c.health_bucket

part_size_max :
    (n : ℤ)
    → (if ltb_ℤ n min_upload_part_size
        then if is_pos n then min_upload_part_size else pos 8_388_608
        else n)
      ≡ (if is_pos n then max_ℤ min_upload_part_size n else pos 8_388_608)
part_size_max (pos n) = ground arith
part_size_max (negsuc n) = ground arith

-- The part size is never below the least one that S3 accepts; it is the larger of that and a configured
-- positive size, and 8 MiB where there is none. Parts are transferred by at least one worker, and both
-- durations are positive.
pub sizes_lem :
    (c : Config)
    → (min_upload_part_size ≤ℤ upload_part_size c)
      × (upload_part_size c ≡ (
          if is_pos c.upload_part_size
          then max_ℤ min_upload_part_size c.upload_part_size
          else pos 8_388_608))
      × (pos 0 <ℤ upload_concurrency c)
      × (pos 0 <ℤ connect_timeout c)
      × (pos 0 <ℤ presign_ttl c)
unfolding upload_part_size upload_concurrency connect_timeout presign_ttl
sizes_lem c =
    (ground arith, part_size_max c.upload_part_size, ground arith, ground arith, ground arith)
