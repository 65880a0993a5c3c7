-- ===== src/Auth/Routes/Unlocked.antt =====
-- What unlocks the private key after an account is made, recovered, or given another password.
use wa_logger.Base.{
  ℕ, ◌≡◌, true, false, none, some, [], ◌∷◌, err, refl, ◌⊎◌, inl, inr, Option-cases, map, ◌++◌,
  length,
}
use wa_logger.Base.Errors
use wa_logger.Base.Text.{Text, text_beq}
use wa_logger.Crypto.Gcm.{Buffer, IsGcm, open_gcm-nonce}
use wa_logger.Auth.Throttle.{cleared}
use wa_logger.Auth.Store.{OwnerRow, create_owner, audit, delete_all_sessions, keep_sessions}
use wa_logger.Auth.Sessions.{
  Kit, SessionConfig, ActiveSession, unwrap_private_key, wrap_private_key, create_session,
  aad_password, aad_recovery,
}
use wa_logger.Auth.Keys.{derive_password_keys, derive_recovery_keys}
use wa_logger.Auth.Routes.{Auth, Caller, Draws, note, start_session}
use wa_logger.Auth.Routes.Account.{create_account, new_owner, password_changed}
use wa_logger.Auth.Routes.Recovery.{perform_recovery}

-- What is documented of the ciphers: opening inverts sealing, and HKDF gives the 32 bytes that it is asked for.
pub record IsKeyed (k : Kit) : Type 0 where
  pub gcm : IsGcm k.cipher
  pub size : (ikm salt : Buffer) (info : Text) → length (k.hkdf ikm salt info) ≡ 32

module _ (k : Kit) where
  unwrap-wrap_private_key :
      (key pk aad nonce : Buffer)
      → IsKeyed k
      → length key ≡ 32
      → length nonce ≡ 12
      → unwrap_private_key k key (wrap_private_key k key pk aad nonce) aad ≡ some pk
  unfolding unwrap_private_key wrap_private_key
  unwrap-wrap_private_key key pk aad nonce is l n =
      open_gcm-nonce k.cipher key nonce aad pk is.gcm l n

  -- The password is the owner's, and unlocks the private key.
  abbrev pub IsUnlockedBy : OwnerRow → Text → Buffer → Type 0
  IsUnlockedBy o password pk =
      ((derive_password_keys k password o.pw_salt).auth_hash ≡ o.pw_auth_hash)
      × (unwrap_private_key k (derive_password_keys k password o.pw_salt).kek o.privkey_pw
            aad_password
          ≡ some pk)

  -- The bytes of a recovery key are the owner's, and unlock the private key.
  abbrev pub IsRecoveredBy : OwnerRow → Buffer → Buffer → Type 0
  IsRecoveredBy o bytes pk =
      ((derive_recovery_keys k bytes o.recovery_salt).auth_hash ≡ o.recovery_auth_hash)
      × (unwrap_private_key k (derive_recovery_keys k bytes o.recovery_salt).kek o.privkey_recovery
            aad_recovery
          ≡ some pk)

  unlocked :
      (password : Text) (salt pk nonce : Buffer)
      → IsKeyed k
      → length nonce ≡ 12
      → unwrap_private_key k
          (derive_password_keys k password salt).kek
          (wrap_private_key k (derive_password_keys k password salt).kek pk aad_password nonce)
          aad_password
        ≡ some pk
  unfolding derive_password_keys
  unlocked password salt pk nonce is n =
      unwrap-wrap_private_key _ pk aad_password nonce is (is.size _ _ _) n

  recovered :
      (bytes salt pk nonce : Buffer)
      → IsKeyed k
      → length nonce ≡ 12
      → unwrap_private_key k
          (derive_recovery_keys k bytes salt).kek
          (wrap_private_key k (derive_recovery_keys k bytes salt).kek pk aad_recovery nonce)
          aad_recovery
        ≡ some pk
  unfolding derive_recovery_keys
  recovered bytes salt pk nonce is n =
      unwrap-wrap_private_key _ pk aad_recovery nonce is (is.size _ _ _) n

module _ (k : Kit) (cfg : SessionConfig) (c : Caller) (d : Draws) (now : ℕ) (a : Auth) where
  -- A password change, where there is an owner: the new password is the owner's and unlocks the private key that the
  -- old one has unlocked, the recovery key and the second factor stay as they are, and of the sessions only those
  -- of the caller's id stay.
  pub password_changed-IsUnlockedBy :
      (s : ActiveSession) (pk : Buffer) (password : Text) (owner : OwnerRow)
      → IsKeyed k
      → length d.pw_nonce ≡ 12
      → a.repo.owner ≡ some owner
      → let after = (password_changed k cfg c s pk password d now a).1.repo in
        (o : OwnerRow) × (after.owner ≡ some o)
        × IsUnlockedBy k o password pk
        × (o.privkey_recovery ≡ owner.privkey_recovery)
        × (o.recovery_salt ≡ owner.recovery_salt)
        × (o.recovery_auth_hash ≡ owner.recovery_auth_hash)
        × (o.totp_enabled ≡ owner.totp_enabled)
        × (o.totp_secret_enc ≡ owner.totp_secret_enc)
        × (o.totp_last_step ≡ owner.totp_last_step)
        × (after.sessions ≡ keep_sessions (λ r. text_beq r.id_hash s.id_hash) a.repo.sessions)
  unfolding password_changed note audit delete_all_sessions
  password_changed-IsUnlockedBy s pk password owner is n h = rw h (
    record owner {
      pw_salt = d.pw_salt;
      pw_auth_hash = (derive_password_keys k password d.pw_salt).auth_hash;
      privkey_pw =
          wrap_private_key k (derive_password_keys k password d.pw_salt).kek pk aad_password
            d.pw_nonce;
      password_changed_at = now;
    },
    refl,
    (refl, unlocked k password d.pw_salt pk d.pw_nonce is n),
    refl,
    refl,
    refl,
    refl,
    refl,
    refl,
    refl,
  )

  -- A recovery, where there is an owner: the new password and the new recovery key are the owner's and unlock the
  -- private key that the old recovery key has unlocked, the second factor is off, the account is not locked, no claim is
  -- pending, and the only session is the one that it starts.
  pub perform_recovery-IsRecoveredBy :
      (pk : Buffer) (password : Text) (owner : OwnerRow)
      → IsKeyed k
      → length d.pw_nonce ≡ 12
      → length d.recovery_nonce ≡ 12
      → a.repo.owner ≡ some owner
      → let after = (perform_recovery k cfg c pk password d now a).1.repo in
        (o : OwnerRow) × (after.owner ≡ some o)
        × IsUnlockedBy k o password pk
        × IsRecoveredBy k o d.recovery pk
        × (o.totp_enabled ≡ false)
        × (o.lock ≡ cleared)
        × (after.pending_claim ≡ none)
        × (map (λ r. r.id_hash) after.sessions ≡ k.sha256 (d.sid ++ d.secret) ∷ [])
  unfolding perform_recovery note audit delete_all_sessions start_session create_session
  perform_recovery-IsRecoveredBy pk password owner is n m h =
      let pw = derive_password_keys k password d.pw_salt in
      let rk = derive_recovery_keys k d.recovery d.recovery_salt in
      rw h (
        record owner {
          pw_salt = d.pw_salt;
          pw_auth_hash = pw.auth_hash;
          privkey_pw = wrap_private_key k pw.kek pk aad_password d.pw_nonce;
          privkey_recovery = wrap_private_key k rk.kek pk aad_recovery d.recovery_nonce;
          recovery_salt = d.recovery_salt;
          recovery_auth_hash = rk.auth_hash;
          totp_enabled = false;
          totp_secret_enc = none;
          totp_last_step = none;
          lock = cleared;
          password_changed_at = now;
        },
        refl,
        (refl, unlocked k password d.pw_salt pk d.pw_nonce is n),
        (refl, recovered k d.recovery d.recovery_salt pk d.recovery_nonce is m),
        refl,
        refl,
        refl,
        refl,
      )

  -- An account is made only where there is no owner: then its password and its recovery key unlock the new private key
  -- and no claim is pending. Where there is an owner the answer is a conflict, and nothing has changed.
  pub create_account-IsUnlockedBy :
      (username password : Text) (later : ℕ)
      → IsKeyed k
      → length d.pw_nonce ≡ 12
      → length d.recovery_nonce ≡ 12
      → let made = create_account k cfg c username password true d now later a in
        ((owner : OwnerRow) × (a.repo.owner ≡ some owner) × (made ≡ (err Errors.conflict, a)))
        ⊎ ((o : OwnerRow) × (a.repo.owner ≡ none)
            × (made.1.repo.owner ≡ some o)
            × IsUnlockedBy k o password d.private_pkcs8
            × IsRecoveredBy k o d.recovery d.private_pkcs8
            × (made.1.repo.pending_claim ≡ none))
  unfolding create_account create_owner start_session create_session
  create_account-IsUnlockedBy username password later is n m = elim (Option-cases a.repo.owner) [
    | inr there ↦ inl (there.0, there.1, rw (create_account, create_owner, there.1) refl)
    | inl nobody ↦ inr (
        rw nobody (
          new_owner k cfg username password d now,
          refl,
          refl,
          (refl, unlocked k password d.pw_salt d.private_pkcs8 d.pw_nonce is n),
          (refl, recovered k d.recovery d.recovery_salt d.private_pkcs8 d.recovery_nonce is m),
          refl,
        ))
  ]
