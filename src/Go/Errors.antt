-- ===== src/Go/Errors.antt =====
-- Package errors, and `fmt.Errorf` with `%w`: an error is a tree of causes.
use samsara_components.Prelude.{ℕ, String, Bool, false, ◌||◌, ◌==◌, List}

-- The sentinel errors that the packages export, and those of the libraries that they compare with.
pub data Sentinel : Type 0 where
  rabbitmq_not_ready rabbitmq_drop_to_dlx : Sentinel
  redis_not_ready redis_nil : Sentinel
  sqlite_not_ready sql_no_rows sql_tx_done : Sentinel
  s3_not_ready s3_probe_forbidden s3_probe_bucket_missing : Sentinel
  postgresql_not_ready pgx_no_rows : Sentinel
  prometheus_not_ready server_closed ctx_deadline ctx_canceled : Sentinel
  io_eof io_unexpected_eof : Sentinel

-- `errorf` is `fmt.Errorf(format, args…, %w cause)`, `newf` the same with no `%w`, `errorf2` with two.
-- `foreign` is an error of a library, which has no sentinel of these packages among its causes.
pub data Error : Type 0 where
  sentinel : Sentinel → Error
  foreign : ℕ → Error
  newf : String → List String → Error
  errorf : String → List String → Error → Error
  errorf2 : String → List String → Error → Error → Error

abbrev pub code_of : Sentinel → ℕ
code_of rabbitmq_not_ready = 0
code_of rabbitmq_drop_to_dlx = 1
code_of redis_not_ready = 2
code_of redis_nil = 3
code_of sqlite_not_ready = 4
code_of sql_no_rows = 5
code_of sql_tx_done = 6
code_of s3_not_ready = 7
code_of s3_probe_forbidden = 8
code_of s3_probe_bucket_missing = 9
code_of io_eof = 10
code_of io_unexpected_eof = 11
code_of postgresql_not_ready = 12
code_of pgx_no_rows = 13
code_of prometheus_not_ready = 14
code_of server_closed = 15
code_of ctx_deadline = 16
code_of ctx_canceled = 17

-- `errors.Is(err, target)` for a non-nil error.
unfoldable pub errors_is : Error → Sentinel → Bool
errors_is (sentinel s) t = code_of s == code_of t
errors_is (foreign n) t = false
errors_is (newf f args) t = false
errors_is (errorf f args e) t = errors_is e t
errors_is (errorf2 f args e₁ e₂) t = errors_is e₁ t || errors_is e₂ t
