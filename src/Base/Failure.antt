-- ===== src/Base/Failure.antt =====
-- server/src/errors.ts: the errors that are safe to show, and what a handler that may throw returns.
use Prim.Native.Nat.{ℕ}
use mathlib.Core.Option.{Option, none}
use mathlib.Core.Path.{◌≡◌, refl}
use mathlib.Core.Logic.{◌⊎◌, inl, inr}

pub data Code : Type 0 where
  unauthorized forbidden not_found conflict validation invalid_credentials rate_limited busy : Code
  unavailable bad_request call_failed calls_unsupported send_failed timed_out wa_error internal :
      Code
  invalid_setup_token invalid_password invalid_totp invalid_recovery : Code

pub record AppError : Type 0 where
  pub status_code : ℕ
  pub code : Code
  pub retry_after : Option ℕ

abbrev pub app_error : ℕ → Code → AppError
app_error s c = record { status_code = s; code = c; retry_after = none }

pub data Result {ℓ} (A : Type ℓ) : Type ℓ where
  ok : A → Result A
  err : AppError → Result A

pub Result-cases {ℓ} :
    {A : Type ℓ} (r : Result A) → ((a : A) × (r ≡ ok a)) ⊎ ((e : AppError) × (r ≡ err e))
Result-cases (ok a) = inl (a, refl)
Result-cases (err e) = inr (e, refl)
