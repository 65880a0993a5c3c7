-- ===== src/Auth/Routes.antt =====
-- server/src/auth/routes.ts: the handlers. One that waits for `scrypt` is a function for each part between two waits;
-- what it knows across a wait is passed on, the store may have changed meanwhile. `served` is `false` when `scrypt`
-- threw a BusyError. Bodies have passed their schema; limits on the rate of requests are left out.
pub mod Login
pub mod Account
pub mod Recovery
pub mod Unlocked
pub mod Factor
pub mod Accepted
pub mod Refused
mod Tests
use wa_logger.Base.{
  ◌≡◌, ◌⊎◌, inl, inr, refl, ℕ, ◌+◌, String, Bool, true, false, not, ◌&&◌, Option, none, some, List,
  [], ◌∷◌, ◌++◌, Result, ok, err, AppError, if◌then◌else◌,
}
use wa_logger.Base.Failure.{Code, app_error}
use wa_logger.Base.Errors
use wa_logger.Base.JsMap
use wa_logger.Base.JsMap.{JsMap}
use wa_logger.Base.Text.{Text, text_beq, text_eq, trim, codes}
use wa_logger.Crypto.Gcm.{Buffer}
use wa_logger.Auth.Throttle.{IpState, AuthLock, Attempt, Throttle, begin, success}
use wa_logger.Auth.Store.{OwnerRow, Repo, get_auth_lock, update_auth_lock, consume_totp_step, audit}
use wa_logger.Auth.Sessions.{Kit, SessionConfig, ActiveSession, create_session}
use wa_logger.Auth.Totp.{verify_totp}
use wa_logger.Auth.Keys.{DerivedKeys, derive_password_keys, open_sealed}

pub record PendingTotp : Type 0 where
  pub secret : Buffer
  pub expires : ℕ

pub data Event : Type 0 where
  session_revoked client_started : Event

-- The store, the addresses of the throttle, the enrollments that wait (by the id of their session), and what was
-- emitted, the latest first.
pub record Auth : Type 0 where
  pub repo : Repo
  pub ips : JsMap String IpState
  pub pending_totp : JsMap Buffer PendingTotp
  pub events : List Event

-- What a request brings along.
pub record Caller : Type 0 where
  pub ip : Option String
  pub user_agent : Option Text
  pub session : Option ActiveSession

-- What a handler draws at random: `recovery` are the bytes of a recovery key.
pub record Draws : Type 0 where
  pub sid : Buffer
  pub secret : Buffer
  pub session_nonce : Buffer
  pub pw_salt : Buffer
  pub pw_nonce : Buffer
  pub private_pkcs8 : Buffer
  pub public_raw : Buffer
  pub recovery : Buffer
  pub recovery_salt : Buffer
  pub recovery_nonce : Buffer

-- The answers: `signed_in` sets the cookie of a new session, `recovery_key` as well. A recovery key is shown in
-- groups of four characters; here it is its bytes.
pub data Reply : Type 0 where
  done logged_out need_totp : Reply
  must_change_password : (need_recovery_key : Bool) → Reply
  signed_in : (cookie : Text) → Reply
  account : (cookie : Text) → (recovery_key : Buffer) → Reply
  rotated : (recovery_key : Buffer) → Reply
  enrollment : (secret : Buffer) → Reply

abbrev pub totp_context : Text
totp_context = codes "totp"

abbrev pub pending_totp_ttl_ms : ℕ
pending_totp_ttl_ms = 600_000

abbrev pub internal : AppError
internal = app_error 500 Code.internal

abbrev pub invalid_totp : AppError
invalid_totp = app_error 401 Code.invalid_totp

abbrev pub invalid_password : AppError
invalid_password = app_error 401 Code.invalid_password

abbrev pub invalid_recovery : AppError
invalid_recovery = app_error 401 Code.invalid_recovery

abbrev pub put_lock : Option AuthLock → Repo → Repo
put_lock none r = r
put_lock (some l) r = update_auth_lock l r

-- The throttle on the counters of the store
abbrev pub throttle : Auth → Throttle
throttle a = record { ips = a.ips; lock = get_auth_lock a.repo }

abbrev pub put_throttle : Throttle → Auth → Auth
put_throttle t a = record a { ips = t.ips; repo = put_lock t.lock a.repo }

-- `ctx.throttle.begin(req.ip, …)`
unfoldable pub charge : Option String → Bool → ℕ → Auth → Result Attempt × Auth
charge ip global now a = let t = begin ip global now (throttle a) in (t.0, put_throttle t.1 a)

-- `ctx.throttle.success(attempt)`
unfoldable pub refund : Attempt → Auth → Auth
refund attempt a = put_throttle (success attempt (throttle a)) a

-- `repo.audit`
unfoldable pub note : String → Caller → ℕ → Auth → Auth
note event c now a = record a { repo = audit event c.ip now a.repo }

abbrev pub emit : Event → Auth → Auth
emit e a = record a { events = e ∷ a.events }

-- `clearPendingTotp`
abbrev pub clear_pending_totp : Auth → Auth
clear_pending_totp a = record a { pending_totp = [] }

-- `requireSession`
abbrev pub require_session : Caller → Result ActiveSession
require_session c = elim c.session [ none ↦ err Errors.unauthorized | some s ↦ ok s ]

-- What the second factor says: `missing` is no code, `broken` a throw.
pub data Factors : Type 0 where
  passed : Repo → Factors
  missing refused broken : Factors

module _ (k : Kit) where
  -- `ctEqual(name.trim().toLowerCase(), username.toLowerCase())`
  abbrev pub same_user : Text → Text → Bool
  same_user name username = text_beq (k.to_lower (trim name)) (k.to_lower username)

  -- The code, against the row that was read before the wait and the store as it is now
  unfoldable pub check_code : OwnerRow → Buffer → Option Buffer → Text → ℕ → Repo → Factors
  check_code owner sealed private_pkcs8 code now r = elim private_pkcs8 [
    | none ↦ broken
    | some pk ↦ elim (open_sealed k pk sealed totp_context) [
      | none ↦ broken
      | some secret ↦ elim (verify_totp k.hmac_sha1 secret code owner.totp_last_step now) [
        | none ↦ refused
        | some step ↦
            let consumed = consume_totp_step step r in
            if consumed.0 then passed consumed.1 else refused
      ]
    ]
  ]

  -- The block under `owner.totp_enabled && owner.totp_secret_enc` of `verifyOwnerSecret` and of the login
  unfoldable pub second_factor : OwnerRow → Option Buffer → Option Text → ℕ → Repo → Factors
  unfolding check_code
  second_factor owner private_pkcs8 totp now r =
      if owner.totp_enabled
      then elim owner.totp_secret_enc [
        | none ↦ passed r
        | some sealed ↦ elim totp [
          | none ↦ missing
          | some [] ↦ missing
          | some (c ∷ code) ↦ check_code owner sealed private_pkcs8 (c ∷ code) now r
        ]
      ]
      else passed r

  -- `verifyOwnerSecret` behind the wait, with the key of the session for the code: the password's key when all is
  -- right, `none` when it is not.
  unfoldable pub verified :
      Attempt
      → OwnerRow
      → Text
      → Option Text
      → Option Buffer
      → (now : ℕ) → Auth
      → Result (Option Buffer) × Auth
  unfolding second_factor refund
  verified attempt owner password totp private_pkcs8 now a =
      let keys = derive_password_keys k password owner.pw_salt in
      if text_beq keys.auth_hash owner.pw_auth_hash
      then elim (second_factor owner private_pkcs8 totp now a.repo) [
        | passed r ↦ (ok (some keys.kek), refund attempt (record a { repo = r }))
        | missing ↦ (ok none, a)
        | refused ↦ (ok none, a)
        | broken ↦ (err internal, a)
      ]
      else (ok none, a)

  -- `startSession`: the value of the cookie
  unfoldable pub start_session : SessionConfig → Caller → Buffer → Draws → ℕ → Auth → Text × Auth
  start_session cfg c private_pkcs8 d now a =
      let made =
        create_session k cfg private_pkcs8 c.ip c.user_agent now d.sid d.secret d.session_nonce
          a.repo in
      (made.0, record a { repo = made.1 })

pub Factors-cases :
    (f : Factors) → ((r : Repo) × (f ≡ passed r)) ⊎ ((f ≡ missing) ⊎ ((f ≡ refused) ⊎ (f ≡ broken)))
Factors-cases (passed r) = inl (r, refl)
Factors-cases missing = inr (inl refl)
Factors-cases refused = inr (inr (inl refl))
Factors-cases broken = inr (inr (inr refl))
