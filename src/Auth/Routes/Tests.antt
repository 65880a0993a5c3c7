-- ===== src/Auth/Routes/Tests.antt =====
-- Runs of the handlers, and the theorems at them.
use wa_logger.Base.{
  ◌≡◌, ◌⊎◌, refl, true, false, none, some, [], ◌∷◌, ◌++◌, replicate, err, map, arith,
}
use wa_logger.Base.Errors
use wa_logger.Base.Text.{codes, text_beq, trim, lower}
use wa_logger.Crypto.Gcm.{open_gcm}
use wa_logger.Auth.Throttle.{Attempt, cleared}
use wa_logger.Auth.Store.{OwnerRow, keep_sessions}
use wa_logger.Auth.Sessions.{unwrap_private_key, wrap_private_key, create_session, ActiveSession}
use wa_logger.Auth.Keys.{derive_password_keys}
use wa_logger.Auth.Routes.{Auth, Caller, Draws, second_factor, start_session}
use wa_logger.Auth.Routes.Login.{LoginBody, for_owner, login_waited, login_owner, login_unlocked}
use wa_logger.Auth.Routes.Accepted.{IsAccepted, login_waited-IsAccepted}
use wa_logger.Auth.Routes.Refused.{IsNoted, login_waited-IsNoted}
use wa_logger.Auth.Routes.Account.{create_account, new_owner, password_changed}
use wa_logger.Auth.Routes.Recovery.{perform_recovery}
use wa_logger.Auth.Routes.Unlocked.{
  IsKeyed, IsUnlockedBy, IsRecoveredBy, password_changed-IsUnlockedBy,
  perform_recovery-IsRecoveredBy, create_account-IsUnlockedBy,
}
use wa_logger.Auth.Tests.{kit, cfg, empty, sid, secret, nonce, toy-IsGcm, hkdf_size}

kit-IsKeyed : IsKeyed kit
kit-IsKeyed = record { gcm = toy-IsGcm; size = hkdf_size }

abbrev draws : Draws
draws = record {
  sid = sid;
  secret = secret;
  session_nonce = nonce;
  pw_salt = 1 ∷ [];
  pw_nonce = nonce;
  private_pkcs8 = 4 ∷ 2 ∷ [];
  public_raw = [];
  recovery = replicate 32 6;
  recovery_salt = 2 ∷ [];
  recovery_nonce = nonce;
}

abbrev caller : Caller
caller = record { ip = some "10.0.0.1"; user_agent = none; session = none }

abbrev ann : OwnerRow
ann = new_owner kit cfg (codes "ann") (codes "secret") draws 7

abbrev start : Auth
start = record {
  repo = record empty { owner = some ann };
  ips = [];
  pending_totp = [];
  events = [];
}

abbrev attempt : Attempt
attempt = record { ip = "10.0.0.1"; global = true }

abbrev right : LoginBody
right = record { username = codes " Ann"; password = codes "secret"; totp = none }

abbrev wrong : LoginBody
wrong = record right { password = codes "guess" }

login_waited-IsAccepted_example :
    IsAccepted kit right
      (for_owner attempt ann)
      9
      start.repo
      (login_waited kit cfg caller right (for_owner attempt ann) true draws 9 start).1.repo
unfolding login_waited login_owner login_unlocked derive_password_keys unwrap_private_key
    wrap_private_key open_gcm second_factor start_session create_session trim lower
login_waited-IsAccepted_example =
    login_waited-IsAccepted kit cfg caller right draws 9 start (for_owner attempt ann) true
      (kit.to_base64url sid ++ (46 ∷ kit.to_base64url secret)) refl

login_waited-IsNoted_example :
    IsNoted start (login_waited kit cfg caller wrong (for_owner attempt ann) true draws 9 start).1
unfolding login_waited login_owner derive_password_keys
login_waited-IsNoted_example =
    login_waited-IsNoted kit cfg caller wrong draws 9 start (for_owner attempt ann) true
      (λ cookie e. ground (arith, e))

abbrev own : ActiveSession
own = record {
  id_hash = sid;
  secret = secret;
  row = record {
    id_hash = sid;
    privkey_enc = [];
    created_at = 0;
    last_seen_at = 0;
    expires_at = 9;
    ip = none;
    user_agent = none;
  };
}

password_changed-IsUnlockedBy_example :
    let after =
      (password_changed kit cfg caller own (4 ∷ 2 ∷ []) (codes "other") draws 9 start).1.repo in
    (o : OwnerRow) × (after.owner ≡ some o)
    × IsUnlockedBy kit o (codes "other") (4 ∷ 2 ∷ [])
    × (o.privkey_recovery ≡ ann.privkey_recovery)
    × (o.recovery_salt ≡ ann.recovery_salt)
    × (o.recovery_auth_hash ≡ ann.recovery_auth_hash)
    × (o.totp_enabled ≡ ann.totp_enabled)
    × (o.totp_secret_enc ≡ ann.totp_secret_enc)
    × (o.totp_last_step ≡ ann.totp_last_step)
    × (after.sessions ≡ keep_sessions (λ r. text_beq r.id_hash own.id_hash) start.repo.sessions)
password_changed-IsUnlockedBy_example =
    password_changed-IsUnlockedBy kit cfg caller draws 9 start own (4 ∷ 2 ∷ []) (codes "other") ann
      kit-IsKeyed refl refl

perform_recovery-IsRecoveredBy_example :
    let after =
      (perform_recovery kit cfg caller (4 ∷ 2 ∷ []) (codes "other") draws 9 start).1.repo in
    (o : OwnerRow) × (after.owner ≡ some o)
    × IsUnlockedBy kit o (codes "other") (4 ∷ 2 ∷ [])
    × IsRecoveredBy kit o draws.recovery (4 ∷ 2 ∷ [])
    × (o.totp_enabled ≡ false)
    × (o.lock ≡ cleared)
    × (after.pending_claim ≡ none)
    × (map (λ r. r.id_hash) after.sessions ≡ (sid ++ secret) ∷ [])
perform_recovery-IsRecoveredBy_example =
    perform_recovery-IsRecoveredBy kit cfg caller draws 9 start (4 ∷ 2 ∷ []) (codes "other") ann
      kit-IsKeyed refl refl refl

create_account-IsUnlockedBy_example :
    let made = create_account kit cfg caller (codes "bob") (codes "other") true draws 9 10 start in
    ((owner : OwnerRow) × (start.repo.owner ≡ some owner) × (made ≡ (err Errors.conflict, start)))
    ⊎ ((o : OwnerRow) × (start.repo.owner ≡ none)
        × (made.1.repo.owner ≡ some o)
        × IsUnlockedBy kit o (codes "other") draws.private_pkcs8
        × IsRecoveredBy kit o draws.recovery draws.private_pkcs8
        × (made.1.repo.pending_claim ≡ none))
create_account-IsUnlockedBy_example =
    create_account-IsUnlockedBy kit cfg caller draws 9 start (codes "bob") (codes "other") 10
      kit-IsKeyed refl refl
