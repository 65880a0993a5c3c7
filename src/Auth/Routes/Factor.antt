-- ===== src/Auth/Routes/Factor.antt =====
-- The handlers of server/src/auth/routes.ts that want the password again: verify, second factor, recovery key.
use wa_logger.Base.{
  ℕ, ◌+◌, String, Bool, true, false, Option, none, some, [], ◌∷◌, Result, ok, err, AppError,
  if◌then◌else◌, ltb,
}
use wa_logger.Base.Failure.{Code, app_error}
use wa_logger.Base.Errors
use wa_logger.Base.JsMap
use wa_logger.Base.JsMap.{JsMap}
use wa_logger.Base.Text.{Text, text_eq}
use wa_logger.Crypto.Gcm.{Buffer}
use wa_logger.Auth.Throttle.{Attempt}
use wa_logger.Auth.Store.{OwnerRow, update_owner}
use wa_logger.Auth.Sessions.{
  Kit, ActiveSession, unwrap_private_key, wrap_private_key, session_private_key, aad_password,
  aad_recovery,
}
use wa_logger.Auth.Totp.{verify_totp}
use wa_logger.Auth.Keys.{derive_recovery_keys, seal_to_public_key}
use wa_logger.Auth.Routes.{
  Auth, Caller, Draws, Reply, PendingTotp, charge, note, require_session, verified, internal,
  invalid_password, totp_context, pending_totp_ttl_ms,
}

-- What a handler remembers while it waits for `scrypt`.
pub record Proving : Type 0 where
  pub attempt : Attempt
  pub owner : OwnerRow
  pub session : ActiveSession

-- `requireSession`, `getOwner`, the handler's own test, and `verifyOwnerSecret` up to its wait
unfoldable pub prove :
    (Auth → OwnerRow → ActiveSession → Option AppError) → Caller → ℕ → Auth → Result Proving × Auth
prove test c now a = elim (require_session c) [
  | err e ↦ (err e, a)
  | ok s ↦ elim a.repo.owner [
    | none ↦ (err Errors.unauthorized, a)
    | some owner ↦ elim (test a owner s) [
      | some e ↦ (err e, a)
      | none ↦
          let charged = charge c.ip true now a in
          elim charged.0 [
            | err e ↦ (err e, charged.1)
            | ok attempt ↦
                (ok (record { attempt = attempt; owner = owner; session = s }), charged.1)
          ]
    ]
  ]
]

-- No test
abbrev pub always : Auth → OwnerRow → ActiveSession → Option AppError
always a owner s = none

-- `totp/enable`: there is no second factor yet, and an enrollment of this session that is not over.
abbrev pub may_enable : ℕ → Auth → OwnerRow → ActiveSession → Option AppError
may_enable now a owner s =
    if owner.totp_enabled then some Errors.conflict else elim (JsMap.get s.id_hash a.pending_totp) [
      | none ↦ some Errors.validation
      | some p ↦ if ltb p.expires now then some Errors.validation else none
    ]

-- `totp/disable`
abbrev pub may_disable : Auth → OwnerRow → ActiveSession → Option AppError
may_disable a owner s =
    if owner.totp_enabled
    then elim owner.totp_secret_enc [ none ↦ some Errors.conflict | some e ↦ none ]
    else some Errors.conflict

abbrev drop_over : ℕ → JsMap Buffer PendingTotp → JsMap Buffer PendingTotp
drop_over now [] = []
drop_over now ((id, p) ∷ m) =
    let rest = drop_over now m in if ltb p.expires now then rest else (id, p) ∷ rest

-- `POST /api/auth/totp/setup`, with the secret that it draws
unfoldable pub totp_setup : Caller → Buffer → ℕ → Auth → Result Reply × Auth
totp_setup c secret now a = elim (require_session c) [
  | err e ↦ (err e, a)
  | ok s ↦ elim a.repo.owner [
    | none ↦ (err Errors.unauthorized, a)
    | some owner ↦ if owner.totp_enabled then (err Errors.conflict, a) else (
      ok (Reply.enrollment secret),
      record a {
        pending_totp =
            JsMap.set s.id_hash (record { secret = secret; expires = now + pending_totp_ttl_ms })
              (drop_over now a.pending_totp);
      },
    )
  ]
]

module _ (k : Kit) where
  -- `verifyOwnerSecret` behind its wait, and what follows when it does not succeed or does
  unfoldable pub proved :
      (event : String)
      → (failure : AppError) → (Buffer → Auth → Result Reply × Auth)
      → Caller
      → Proving
      → (password : Text) → (totp : Option Text) → (served : Bool) → ℕ
      → Auth
      → Result Reply × Auth
  proved event failure next c p password totp served now a =
      if served
      then (let v =
            verified k p.attempt p.owner password totp (session_private_key k p.session) now a in
          elim v.0 [
            | err e ↦ (err e, v.1)
            | ok none ↦ (err failure, note event c now v.1)
            | ok (some kek) ↦ next kek v.1
          ])
      else (err Errors.busy, a)

  -- `POST /api/auth/verify`
  unfoldable pub verify :
      Caller → Proving → Text → Option Text → Bool → ℕ → Auth → Result Reply × Auth
  unfolding proved
  verify c p password totp served now a =
      proved "verify_failed" invalid_password (λ kek b. (ok Reply.done, b)) c p password totp served
        now a

  -- `totp/enable` with the right password: the code of the enrollment, which is sealed for the owner
  unfoldable pub enable :
      Caller
      → Proving
      → PendingTotp
      → (code : Text) → (eph_private eph_public nonce : Buffer) → ℕ
      → Auth
      → Result Reply × Auth
  enable c p pending code eph_private eph_public nonce now a =
      elim (verify_totp k.hmac_sha1 pending.secret code none now) [
        | none ↦ (err (app_error 400 Code.invalid_totp), a)
        | some step ↦
            elim (seal_to_public_key k p.owner.public_key pending.secret totp_context eph_private
              eph_public nonce) [
                | none ↦ (err internal, a)
                | some sealed ↦ (
                  ok Reply.done,
                  note "totp_enabled" c now (record a {
                    repo =
                        update_owner
                          (λ o. record o {
                            totp_secret_enc = some sealed;
                            totp_enabled = true;
                            totp_last_step = some step;
                          })
                          a.repo;
                    pending_totp = JsMap.delete p.session.id_hash a.pending_totp;
                  }),
                )
              ]
      ]

  -- `POST /api/auth/totp/enable` behind the wait, with the enrollment that it found, whose secret nothing has
  -- overwritten meanwhile
  unfoldable pub totp_enable :
      Caller
      → Proving
      → PendingTotp
      → (code password : Text) → (eph_private eph_public nonce : Buffer) → Bool
      → ℕ
      → Auth
      → Result Reply × Auth
  unfolding proved enable
  totp_enable c p pending code password eph_private eph_public nonce served now a =
      proved "totp_enable_failed" invalid_password
        (λ kek b. enable c p pending code eph_private eph_public nonce now b) c p password none
        served now a

  -- `POST /api/auth/totp/disable` behind the wait
  unfoldable pub totp_disable :
      Caller → Proving → (password code : Text) → Bool → ℕ → Auth → Result Reply × Auth
  unfolding proved
  totp_disable c p password code served now a =
      proved "totp_disable_failed" Errors.invalid_credentials
        (λ kek b. (
          ok Reply.done,
          note "totp_disabled" c now (record b {
            repo =
                update_owner
                  (λ o. record o {
                    totp_enabled = false;
                    totp_secret_enc = none;
                    totp_last_step = none;
                  })
                  b.repo;
          }),
        ))
        c p password (some code) served now a

  -- The rotation of the recovery key, with the password's key
  unfoldable pub rotate : Caller → OwnerRow → Draws → ℕ → Buffer → Auth → Result Reply × Auth
  rotate c owner d now kek a = elim (unwrap_private_key k kek owner.privkey_pw aad_password) [
    | none ↦ (err internal, a)
    | some pk ↦
        let rk = derive_recovery_keys k d.recovery d.recovery_salt in
        (
          ok (Reply.rotated d.recovery),
          note "recovery_key_rotated" c now (record a {
            repo =
                update_owner
                  (λ o. record o {
                    privkey_recovery = wrap_private_key k rk.kek pk aad_recovery d.recovery_nonce;
                    recovery_salt = d.recovery_salt;
                    recovery_auth_hash = rk.auth_hash;
                  })
                  a.repo;
          }),
        )
  ]

  -- `POST /api/auth/recovery-key/rotate` behind the wait
  unfoldable pub recovery_key_rotate :
      Caller → Proving → Text → Option Text → Draws → Bool → ℕ → Auth → Result Reply × Auth
  unfolding proved rotate
  recovery_key_rotate c p password totp d served now a =
      proved "recovery_rotate_failed" invalid_password (rotate c p.owner d now) c p password totp
        served now a
