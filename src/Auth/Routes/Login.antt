-- ===== src/Auth/Routes/Login.antt =====
-- Login, logout and the list of sessions of server/src/auth/routes.ts.
use wa_logger.Base.{
  ℕ, ◌==◌, Bool, true, false, ◌&&◌, Option, none, some, Result, ok, err, if◌then◌else◌,
}
use wa_logger.Base.Errors
use wa_logger.Base.JsMap
use wa_logger.Base.Text.{Text, text_beq, text_eq}
use wa_logger.Crypto.Gcm.{Buffer}
use wa_logger.Auth.Throttle.{Attempt}
use wa_logger.Auth.Store.{
  OwnerRow, PendingClaimRow, Mode, delete_session, delete_all_sessions, delete_session_by_prefix,
}
use wa_logger.Auth.Sessions.{Kit, SessionConfig, unwrap_private_key, aad_password}
use wa_logger.Auth.Keys.{derive_password_keys}
use wa_logger.Auth.Routes.{
  Auth, Caller, Draws, Reply, Event, charge, refund, note, emit, clear_pending_totp,
  require_session, same_user, second_factor, start_session, internal, invalid_totp, passed, missing,
  refused, broken,
}

pub record LoginBody : Type 0 where
  pub username : Text
  pub password : Text
  pub totp : Option Text

-- What a login remembers while it waits.
pub data Waiting : Type 0 where
  for_claim : Attempt → PendingClaimRow → Waiting
  for_owner : Attempt → OwnerRow → Waiting

abbrev waits : (Attempt → Waiting) → Result Attempt × Auth → Result Waiting × Auth
waits f (ok attempt, a) = (ok (f attempt), a)
waits f (err e, a) = (err e, a)

abbrev is_reset : Mode → Bool
is_reset Mode.new = false
is_reset Mode.reset = true

-- `POST /api/auth/login` up to the wait
unfoldable pub login : Caller → ℕ → Auth → Result Waiting × Auth
login c now a = elim a.repo.pending_claim [
  | some pending ↦ waits (λ attempt. for_claim attempt pending) (charge c.ip true now a)
  | none ↦ elim a.repo.owner [
    | none ↦ (err Errors.invalid_credentials, a)
    | some owner ↦ waits (λ attempt. for_owner attempt owner) (charge c.ip true now a)
  ]
]

module _ (k : Kit) (cfg : SessionConfig) where
  -- The login with a temporary password
  unfoldable pub login_claim : Caller → LoginBody → PendingClaimRow → ℕ → Auth → Result Reply × Auth
  login_claim c body pending now a =
      let tmp = derive_password_keys k body.password pending.salt in
      if text_beq tmp.auth_hash pending.auth_hash && same_user k body.username pending.username
      then (ok (Reply.must_change_password (is_reset pending.mode)), a)
      else (err Errors.invalid_credentials, note "login_failed" c now a)

  -- The login from the private key on
  unfoldable pub login_unlocked :
      Caller → LoginBody → Attempt → OwnerRow → Buffer → Draws → ℕ → Auth → Result Reply × Auth
  login_unlocked c body attempt owner pk d now a =
      elim (second_factor k owner (some pk) body.totp now a.repo) [
        | passed r ↦
            let started =
              start_session k cfg c pk d now
                (note "login" c now (refund attempt (record a { repo = r }))) in
            (ok (Reply.signed_in started.0), started.1)
        | missing ↦ (ok Reply.need_totp, a)
        | refused ↦ (err invalid_totp, note "login_failed_totp" c now a)
        | broken ↦ (err internal, a)
      ]

  -- The login with the owner's password
  unfoldable pub login_owner :
      Caller → LoginBody → Attempt → OwnerRow → Draws → ℕ → Auth → Result Reply × Auth
  unfolding login_unlocked
  login_owner c body attempt owner d now a =
      let keys = derive_password_keys k body.password owner.pw_salt in
      if text_beq keys.auth_hash owner.pw_auth_hash && same_user k body.username owner.username
      then elim (unwrap_private_key k keys.kek owner.privkey_pw aad_password) [
        | none ↦ (err internal, a)
        | some pk ↦ login_unlocked c body attempt owner pk d now a
      ]
      else (err Errors.invalid_credentials, note "login_failed" c now a)

  -- `POST /api/auth/login` behind the wait
  unfoldable pub login_waited :
      Caller → LoginBody → Waiting → (served : Bool) → Draws → ℕ → Auth → Result Reply × Auth
  unfolding login_claim login_owner
  login_waited c body w false d now a = (err Errors.busy, a)
  login_waited c body (for_claim attempt pending) true d now a = login_claim c body pending now a
  login_waited c body (for_owner attempt owner) true d now a =
      login_owner c body attempt owner d now a

-- `POST /api/auth/logout`
unfoldable pub logout : Caller → Auth → Result Reply × Auth
logout c a = elim (require_session c) [
  | err e ↦ (err e, a)
  | ok s ↦ (
    ok Reply.logged_out,
    record a {
      repo = delete_session s.id_hash a.repo;
      pending_totp = JsMap.delete s.id_hash a.pending_totp;
    },
  )
]

-- `POST /api/auth/logout-all`
unfoldable pub logout_all : Caller → ℕ → Auth → Result Reply × Auth
logout_all c now a = elim (require_session c) [
  | err e ↦ (err e, a)
  | ok s ↦ (
    ok Reply.logged_out,
    emit Event.session_revoked (
        note "logout_all" c now
          (clear_pending_totp (record a { repo = delete_all_sessions none a.repo }))),
  )
]

-- `DELETE /api/auth/sessions/:id`, where the id is that of `publicSessionId`; what it does to the caller's own cookie
-- is left out.
unfoldable pub revoke_session : Caller → Text → ℕ → Auth → Result Reply × Auth
revoke_session c id now a = elim (require_session c) [
  | err e ↦ (err e, a)
  | ok s ↦
      let gone = delete_session_by_prefix id a.repo in
      if gone.0 == 0 then (err Errors.not_found, a) else (
        ok Reply.done,
        emit Event.session_revoked (note "session_revoked" c now (record a { repo = gone.1 })),
      )
]
