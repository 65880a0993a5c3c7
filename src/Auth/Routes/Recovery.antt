-- ===== src/Auth/Routes/Recovery.antt =====
-- Recovering an account, and claiming one that the admin has made or reset, of server/src/auth/routes.ts.
use wa_logger.Base.{
  true, ℕ, Bool, false, Option, none, some, Result, ok, err, if◌then◌else◌, ◌&&◌, ◌||◌,
}
use wa_logger.Base.Errors
use wa_logger.Base.Text.{Text, text_beq}
use wa_logger.Crypto.Gcm.{Buffer}
use wa_logger.Auth.Throttle.{Attempt, cleared}
use wa_logger.Auth.Store.{
  OwnerRow, PendingClaimRow, new, reset, update_owner, delete_all_sessions, delete_pending_claim,
}
use wa_logger.Auth.Sessions.{
  Kit, SessionConfig, unwrap_private_key, wrap_private_key, aad_password, aad_recovery,
}
use wa_logger.Auth.Keys.{
  DerivedKeys, derive_password_keys, derive_recovery_keys, parse_recovery_key,
  password_policy_error,
}
use wa_logger.Auth.Routes.{
  Auth, Caller, Draws, Reply, Event, charge, refund, note, emit, clear_pending_totp, same_user,
  start_session, internal, invalid_recovery,
}
use wa_logger.Auth.Routes.Account.{create_account}

-- What a claim goes on with: a new account, or the recovery of the old one with its private key.
pub data Claimed : Type 0 where
  creates : Claimed
  recovers : Buffer → Claimed

-- `POST /api/auth/claim` up to its first wait, with the claim that it found
unfoldable pub claim_started : Caller → ℕ → Auth → Result (Attempt × PendingClaimRow) × Auth
claim_started c now a = elim a.repo.pending_claim [
  | none ↦ (err Errors.invalid_credentials, a)
  | some pending ↦
      let charged = charge c.ip true now a in
      elim charged.0 [
        | err e ↦ (err e, charged.1)
        | ok attempt ↦ (ok (attempt, pending), charged.1)
      ]
]

module _ (k : Kit) (cfg : SessionConfig) where
  -- `performRecovery` behind its wait: the key of the recovery key has unwrapped `pk`.
  unfoldable pub perform_recovery :
      Caller → (pk : Buffer) → (new_password : Text) → Draws → ℕ → Auth → Result Reply × Auth
  perform_recovery c pk new_password d now a =
      let pw = derive_password_keys k new_password d.pw_salt in
      let rk = derive_recovery_keys k d.recovery d.recovery_salt in
      let reset_owner : OwnerRow → OwnerRow = λ o. record o {
        pw_salt = d.pw_salt;
        pw_auth_hash = pw.auth_hash;
        privkey_pw = wrap_private_key k pw.kek pk aad_password d.pw_nonce;
        privkey_recovery = wrap_private_key k rk.kek pk aad_recovery d.recovery_nonce;
        recovery_salt = d.recovery_salt;
        recovery_auth_hash = rk.auth_hash;
        totp_enabled = false;
        totp_secret_enc = none;
        totp_last_step = none;
        lock = cleared;
        password_changed_at = now;
      } in
      let repo =
        delete_pending_claim (delete_all_sessions none (update_owner reset_owner a.repo)) in
      let started = start_session k cfg c pk d now (
        emit Event.session_revoked
          (note "recovered" c now (clear_pending_totp (record a { repo = repo })))) in
      (ok (Reply.account started.0 d.recovery), started.1)

  -- The recovery key, against the owner's row: what it derives when it is right
  unfoldable pub right_recovery_key : OwnerRow → Text → Option DerivedKeys
  right_recovery_key owner recovery_key = elim (parse_recovery_key k recovery_key) [
    | none ↦ none
    | some bytes ↦
        let rk = derive_recovery_keys k bytes owner.recovery_salt in
        if text_beq rk.auth_hash owner.recovery_auth_hash then some rk else none
  ]

  -- The first step of `performRecovery`: what it goes on with after its wait
  unfoldable pub unwrap_recovery : OwnerRow → DerivedKeys → Auth → Result Buffer × Auth
  unwrap_recovery owner rk a =
      elim (unwrap_private_key k rk.kek owner.privkey_recovery aad_recovery) [
        | none ↦ (err internal, a)
        | some pk ↦ (ok pk, a)
      ]

  -- `POST /api/auth/recover` up to the wait of `performRecovery`
  unfoldable pub recover :
      Caller → (username recovery_key new_password : Text) → ℕ → Auth → Result Buffer × Auth
  unfolding right_recovery_key unwrap_recovery
  recover c username recovery_key new_password now a = elim a.repo.owner [
    | none ↦ (err Errors.invalid_credentials, a)
    | some owner ↦
        let charged = charge c.ip false now a in
        elim charged.0 [
          | err e ↦ (err e, charged.1)
          | ok attempt ↦ elim (right_recovery_key owner recovery_key) [
            | none ↦ (err invalid_recovery, note "recover_failed" c now charged.1)
            | some rk ↦
                if same_user k username owner.username
                then if password_policy_error k new_password owner.username
                  then (err Errors.validation, charged.1)
                  else unwrap_recovery owner rk (refund attempt charged.1)
                else (err invalid_recovery, note "recover_failed" c now charged.1)
          ]
        ]
  ]

  -- `POST /api/auth/claim` for an account that was reset, where the temporary password was right
  unfoldable pub claim_reset : Caller → Option Text → Attempt → ℕ → Auth → Result Claimed × Auth
  unfolding right_recovery_key
  claim_reset c recovery_key attempt now a = elim a.repo.owner [
    | none ↦ (err Errors.conflict, a)
    | some owner ↦
        let rk : Option DerivedKeys = elim recovery_key [
          | none ↦ none
          | some key ↦ right_recovery_key owner key
        ] in
        elim rk [
          | none ↦ (err invalid_recovery, note "claim_failed_recovery" c now a)
          | some keys ↦
              let u = unwrap_recovery owner keys (refund attempt a) in
              elim u.0 [ err e ↦ (err e, u.1) | ok pk ↦ (ok (recovers pk), u.1) ]
        ]
  ]

  -- `POST /api/auth/claim` between its waits, with the claim that it read before the first one
  unfoldable pub claim :
      Caller
      → PendingClaimRow
      → Attempt
      → (username password new_password : Text) → (recovery_key : Option Text) → ℕ
      → Auth
      → Result Claimed × Auth
  unfolding claim_reset
  claim c pending attempt username password new_password recovery_key now a =
      let tmp = derive_password_keys k password pending.salt in
      if text_beq tmp.auth_hash pending.auth_hash && same_user k username pending.username
      then if password_policy_error k new_password pending.username
          || text_beq new_password password
        then (err Errors.validation, a)
        else elim pending.mode [
          | new ↦ (ok creates, a)
          | reset ↦ claim_reset c recovery_key attempt now a
        ]
      else (err Errors.invalid_credentials, note "claim_failed" c now a)

  -- The end of a claim of a new account, behind the second wait
  unfoldable pub claim_created :
      Caller
      → PendingClaimRow
      → Attempt
      → (new_password : Text) → (served : Bool) → Draws
      → (now later : ℕ) → Auth
      → Result Reply × Auth
  unfolding create_account
  claim_created c pending attempt new_password served d now later a =
      let made = create_account k cfg c pending.username new_password served d now later a in
      elim made.0 [
        | err e ↦ (err e, made.1)
        | ok reply ↦ (ok reply, note "account_claimed" c later (refund attempt made.1))
      ]

  -- `POST /api/auth/recover` behind its wait
  unfoldable pub recover_waited :
      Caller
      → (pk : Buffer) → (new_password : Text) → (served : Bool) → Draws
      → ℕ
      → Auth
      → Result Reply × Auth
  recover_waited c pk new_password served d now a =
      if served then perform_recovery c pk new_password d now a else (err Errors.busy, a)

  -- The end of a claim of an account that was reset
  unfoldable pub claim_recovered :
      Caller
      → (pk : Buffer) → (new_password : Text) → (served : Bool) → Draws
      → ℕ
      → Auth
      → Result Reply × Auth
  unfolding perform_recovery
  claim_recovered c pk new_password served d now a =
      if served
      then (let made = perform_recovery c pk new_password d now a in
          (made.0, note "account_claimed" c now made.1))
      else (err Errors.busy, a)
