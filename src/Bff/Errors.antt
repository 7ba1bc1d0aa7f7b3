-- ===== src/Bff/Errors.antt =====
-- services/bff/internal/apperr/apperr.go: errors as the gateway answers them.
use pingu_coin.Base.{ℕ, String, Option, none, some}
use pingu_coin.Base.Text.{◌<>◌}
use pingu_coin.Base.Rpc.{Code}

-- The text of the error behind an `AppError` is for the log alone.
pub record AppError : Type 0 where
  pub http_status : ℕ
  pub reason : String
  pub message : String

-- `NotFound`
abbrev pub missing_error : String → AppError
missing_error resource = record {
  http_status = 404;
  reason = "NOT_FOUND";
  message = resource <> " not found";
}

-- `InvalidArgument`
abbrev pub invalid_error : String → AppError
invalid_error message = record { http_status = 400; reason = "INVALID_ARGUMENT"; message = message }

-- `Unauthenticated`
abbrev pub login_error : String → AppError
login_error message = record { http_status = 401; reason = "UNAUTHENTICATED"; message = message }

-- `PermissionDenied`
abbrev pub denied_error : String → AppError
denied_error message = record { http_status = 403; reason = "PERMISSION_DENIED"; message = message }

-- `Internal`
abbrev pub internal_error : AppError
internal_error = record {
  http_status = 500;
  reason = "INTERNAL";
  message = "internal server error";
}

-- What `status.FromError` makes of an error: no status, or a code with a message and the reason of
-- the last `ErrorInfo` among its details.
pub data RpcError : Type 0 where
  no_status : RpcError
  status : Code → String → Option String → RpcError

-- `Code.String`, of the codes that keep their reason.
abbrev code_text : Code → String
code_text Code.invalid_argument = "InvalidArgument"
code_text Code.not_found = "NotFound"
code_text Code.already_exists = "AlreadyExists"
code_text Code.failed_precondition = "FailedPrecondition"
code_text Code.internal = "Internal"
code_text Code.unauthenticated = "Unauthenticated"
code_text Code.permission_denied = "PermissionDenied"
code_text Code.unavailable = "Unavailable"
code_text Code.deadline_exceeded = "DeadlineExceeded"
code_text Code.other = "Unknown"

abbrev reason_of : Code → Option String → String
reason_of code none = code_text code
reason_of code (some reason) = reason

abbrev app_error : ℕ → String → String → AppError
app_error code reason message = record { http_status = code; reason = reason; message = message }

by_code : Code → String → String → AppError
by_code Code.not_found reason message = app_error 404 reason message
by_code Code.invalid_argument reason message = app_error 400 reason message
by_code Code.already_exists reason message = app_error 409 reason message
by_code Code.unauthenticated reason message = app_error 401 reason message
by_code Code.permission_denied reason message = app_error 403 reason message
by_code Code.failed_precondition reason message = app_error 409 reason message
by_code Code.unavailable reason message = app_error 503 reason "service temporarily unavailable"
by_code Code.deadline_exceeded reason message = app_error 504 reason "upstream request timed out"
by_code Code.internal reason message = internal_error
by_code Code.other reason message = internal_error

-- `FromGRPC`
unfoldable pub from_grpc : RpcError → AppError
unfolding by_code
from_grpc no_status = internal_error
from_grpc (status code message reason) = by_code code (reason_of code reason) message
