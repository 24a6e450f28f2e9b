-- ===== src/Domain/Errors.antt =====
-- backend/internal/domain/errors.go: the errors that the service returns. A message that the source
-- formats with a status or an identifier is kept without that part.
use Prim.Native.String.{String}
use interstellar_trade_platf.Base.{ℕ}

pub data Code : Type 0 where
  code_bad_request code_unauthorized code_forbidden code_not_found code_conflict : Code
  code_internal_error code_mfa_enrollment_required code_mfa_required : Code

pub record AppError : Type 0 where
  pub status : ℕ
  pub code : Code
  pub message : String
  pub reason : String

abbrev app_error : ℕ → Code → String → AppError
app_error s c m = record { status = s; code = c; message = m; reason = "" }

abbrev pub bad_request : String → AppError
bad_request m = app_error 400 code_bad_request m

abbrev pub unauthorized : String → AppError
unauthorized m = app_error 401 code_unauthorized m

abbrev pub forbidden : String → AppError
forbidden m = app_error 403 code_forbidden m

abbrev pub not_found : String → AppError
not_found m = app_error 404 code_not_found m

abbrev pub conflict : String → AppError
conflict m = app_error 409 code_conflict m

abbrev pub internal_err : String → AppError
internal_err m = app_error 500 code_internal_error m
