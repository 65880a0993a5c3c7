-- ===== src/Auth/Routes/Account.antt =====
-- Signing up and changing the password of server/src/auth/routes.ts.
use wa_logger.Base.{
  Option, none, some, AppError, ℕ, Bool, true, false, none, some, Result, ok, err, if◌then◌else◌,
  is_some,
}
use wa_logger.Base.Failure.{Code, app_error}
use wa_logger.Base.Errors
use wa_logger.Base.Text.{Text, text_beq, trim}
use wa_logger.Crypto.Gcm.{Buffer}
use wa_logger.Auth.Throttle.{Attempt, cleared}
use wa_logger.Auth.Store.{
  OwnerRow, create_owner, update_owner, delete_all_sessions, delete_pending_claim,
}
use wa_logger.Auth.Sessions.{
  Kit, SessionConfig, ActiveSession, unwrap_private_key, wrap_private_key, aad_password,
  aad_recovery,
}
use wa_logger.Auth.Keys.{derive_password_keys, derive_recovery_keys, password_policy_error}
use wa_logger.Auth.Routes.{
  Auth, Caller, Draws, Reply, Event, charge, refund, note, emit, start_session, internal,
  invalid_password,
}

module _ (k : Kit) (cfg : SessionConfig) where
  -- The row that `createAccount` inserts; the columns that it does not name have their defaults.
  abbrev pub new_owner : Text → Text → Draws → ℕ → OwnerRow
  new_owner username password d now =
      let pw = derive_password_keys k password d.pw_salt in
      let rk = derive_recovery_keys k d.recovery d.recovery_salt in
      record {
        username = username;
        pw_salt = d.pw_salt;
        pw_auth_hash = pw.auth_hash;
        public_key = d.public_raw;
        privkey_pw = wrap_private_key k pw.kek d.private_pkcs8 aad_password d.pw_nonce;
        privkey_recovery = wrap_private_key k rk.kek d.private_pkcs8 aad_recovery d.recovery_nonce;
        recovery_salt = d.recovery_salt;
        recovery_auth_hash = rk.auth_hash;
        totp_secret_enc = none;
        totp_enabled = false;
        totp_last_step = none;
        lock = cleared;
        created_at = now;
        password_changed_at = now;
      }

  -- `createAccount` behind its wait; its test of the password stands in front of it. `now` was read before the wait,
  -- `later` is when the session starts.
  unfoldable pub create_account :
      Caller
      → (username password : Text) → (served : Bool) → Draws
      → (now later : ℕ) → Auth
      → Result Reply × Auth
  create_account c username password served d now later a =
      let created = create_owner (new_owner username password d now) a.repo in
      if served
      then if created.0
        then (let started =
              start_session k cfg c d.private_pkcs8 d later
                (record a { repo = delete_pending_claim created.1 }) in
            (ok (Reply.account started.0 d.recovery), emit Event.client_started started.1))
        else (err Errors.conflict, a)
      else (err Errors.busy, a)

  -- `POST /api/auth/signup` up to the wait of `createAccount`
  unfoldable pub signup :
      (expected given : Text) → Caller → (username password : Text) → ℕ → Auth → Result Bool × Auth
  signup expected given c username password now a =
      if is_some a.repo.owner
      then (err Errors.conflict, a)
      else (let charged = charge c.ip false now a in
          elim charged.0 [
            | err e ↦ (err e, charged.1)
            | ok attempt ↦
                if text_beq (trim given) expected
                then if password_policy_error k password username
                  then (err Errors.validation, refund attempt charged.1)
                  else (ok true, refund attempt charged.1)
                else (
                  err (app_error 401 Code.invalid_setup_token),
                  note "signup_bad_token" c now charged.1,
                )
          ])

  -- `POST /api/auth/signup` behind that wait
  unfoldable pub signed_up :
      Caller
      → (username password : Text) → (served : Bool) → Draws
      → (now later : ℕ) → Auth
      → Result Reply × Auth
  unfolding create_account
  signed_up c username password served d now later a =
      let made = create_account c username password served d now later a in
      elim made.0 [ err e ↦ (err e, made.1) | ok reply ↦ (ok reply, note "signup" c later made.1) ]

  -- The test of `POST /api/auth/password`, with which `prove` is what it does up to its first wait
  abbrev pub may_change : Text → Auth → OwnerRow → ActiveSession → Option AppError
  may_change new_password a owner s =
      if password_policy_error k new_password owner.username then some Errors.validation else none

  -- `POST /api/auth/password` between its waits, when `scrypt` was served, with the owner that it read before them: the
  -- private key
  unfoldable pub password_checked :
      Caller → Attempt → OwnerRow → (current : Text) → ℕ → Auth → Result Buffer × Auth
  password_checked c attempt owner current now a =
      let cur = derive_password_keys k current owner.pw_salt in
      if text_beq cur.auth_hash owner.pw_auth_hash
      then (let paid = refund attempt a in
          elim (unwrap_private_key k cur.kek owner.privkey_pw aad_password) [
            | none ↦ (err internal, paid)
            | some pk ↦ (ok pk, paid)
          ])
      else (err invalid_password, note "password_change_failed" c now a)

  -- `POST /api/auth/password` behind its second wait, when `scrypt` was served
  unfoldable pub password_changed :
      Caller
      → ActiveSession
      → (pk : Buffer) → (new_password : Text) → Draws
      → ℕ
      → Auth
      → Result Reply × Auth
  password_changed c s pk new_password d now a =
      let pw = derive_password_keys k new_password d.pw_salt in
      let change : OwnerRow → OwnerRow = λ o. record o {
        pw_salt = d.pw_salt;
        pw_auth_hash = pw.auth_hash;
        privkey_pw = wrap_private_key k pw.kek pk aad_password d.pw_nonce;
        password_changed_at = now;
      } in
      (
        ok Reply.done,
        emit Event.session_revoked (
            note "password_changed" c now (record a {
              repo = delete_all_sessions (some s.id_hash) (update_owner change a.repo);
            })),
      )
