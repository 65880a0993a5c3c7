-- ===== src/Base/Errors.antt =====
-- The constructors `Errors.*` of server/src/errors.ts. Messages are not modelled.
use Prim.Native.Nat.{ℕ, ◌+◌, ◌/◌, max}
use mathlib.Core.Option.{some}
use wa_logger.Base.Failure.{Code, AppError, app_error}

abbrev pub unauthorized : AppError
unauthorized = app_error 401 Code.unauthorized

abbrev pub forbidden : AppError
forbidden = app_error 403 Code.forbidden

abbrev pub not_found : AppError
not_found = app_error 404 Code.not_found

abbrev pub conflict : AppError
conflict = app_error 409 Code.conflict

abbrev pub validation : AppError
validation = app_error 400 Code.validation

abbrev pub invalid_credentials : AppError
invalid_credentials = app_error 401 Code.invalid_credentials

-- The callers divide milliseconds by 1000 and the seconds are rounded up, at least 1.
abbrev pub rate_limited : ℕ → AppError
rate_limited ms = record {
  status_code = 429;
  code = Code.rate_limited;
  retry_after = some (max 1 ((ms + 999) / 1000));
}

abbrev pub busy : AppError
busy = record { status_code = 503; code = Code.busy; retry_after = some 2 }

abbrev pub unavailable : AppError
unavailable = app_error 503 Code.unavailable
