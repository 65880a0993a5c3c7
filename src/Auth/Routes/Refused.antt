-- ===== src/Auth/Routes/Refused.antt =====
-- What a login without a session leaves.
use wa_logger.Base.{
  ℕ, ◌≡◌, ◌≢◌, String, true, false, Bool, List, some, ok, refl, inl, inr, Bool-cases, Option-cases,
  ◌&&◌,
}
use wa_logger.Base.Text.{text_beq}
use wa_logger.Auth.Throttle.{Attempt}
use wa_logger.Auth.Store.{OwnerRow, audit}
use wa_logger.Auth.Sessions.{Kit, SessionConfig, unwrap_private_key, aad_password}
use wa_logger.Auth.Keys.{derive_password_keys}
use wa_logger.Auth.Routes.{
  Auth, Caller, Draws, Reply, Factors-cases, second_factor, same_user, note, refund, start_session,
}
use wa_logger.Auth.Routes.Login.{
  LoginBody, Waiting, for_claim, for_owner, login_waited, login_claim, login_owner, login_unlocked,
}

-- `after` is `before` with another audit log.
abbrev pub IsNoted : Auth → Auth → Type 0
IsNoted before after =
    record before { repo = record before.repo { audits = after.repo.audits } } ≡ after

note-IsNoted : (event : String) (c : Caller) (now : ℕ) (a : Auth) → IsNoted a (note event c now a)
unfolding note audit
note-IsNoted event c now a = refl

module _ (k : Kit) (cfg : SessionConfig) (c : Caller) (body : LoginBody) (d : Draws) (now : ℕ)
    (a : Auth) where
  login_unlocked-IsNoted :
      (attempt : Attempt) (owner : OwnerRow) (pk : List ℕ)
      → ((cookie : List ℕ)
          → (login_unlocked k cfg c body attempt owner pk d now a).0 ≢ ok (Reply.signed_in cookie))
      → IsNoted a (login_unlocked k cfg c body attempt owner pk d now a).1
  unfolding login_unlocked
  login_unlocked-IsNoted attempt owner pk h =
      elim (Factors-cases (second_factor k owner (some pk) body.totp now a.repo)) [
        | inl p ↦ absurd (
            h
              (start_session k cfg c pk d now
                (note "login" c now (refund attempt (record a { repo = p.0 })))).0
              (rw (login_unlocked, p.1) refl))
        | inr (inl e) ↦ rw (login_unlocked, e) refl
        | inr (inr (inl e)) ↦ rw (login_unlocked, e) (note-IsNoted "login_failed_totp" c now a)
        | inr (inr (inr e)) ↦ rw (login_unlocked, e) refl
      ]

  login_owner-IsNoted :
      (attempt : Attempt) (owner : OwnerRow)
      → ((cookie : List ℕ)
          → (login_owner k cfg c body attempt owner d now a).0 ≢ ok (Reply.signed_in cookie))
      → IsNoted a (login_owner k cfg c body attempt owner d now a).1
  unfolding login_owner
  login_owner-IsNoted attempt owner h =
      let keys = derive_password_keys k body.password owner.pw_salt in
      elim (Bool-cases
        (text_beq keys.auth_hash owner.pw_auth_hash && same_user k body.username owner.username)) [
          | inr wrong ↦ rw (login_owner, wrong) (note-IsNoted "login_failed" c now a)
          | inl good ↦
              elim (Option-cases (unwrap_private_key k keys.kek owner.privkey_pw aad_password)) [
                | inl shut ↦ rw (login_owner, good, shut) refl
                | inr key ↦
                    rw (login_owner, good, key.1)
                      (login_unlocked-IsNoted attempt owner key.0
                        (λ cookie e. h cookie (rw (login_owner, good, key.1) e)))
              ]
        ]

  -- A login that starts no session, whatever it answers, changes nothing but the audit log: there is no new session, no
  -- code is used up, and the attempt stays charged to the address and the account.
  pub login_waited-IsNoted :
      (w : Waiting) (served : Bool)
      → ((cookie : List ℕ)
          → (login_waited k cfg c body w served d now a).0 ≢ ok (Reply.signed_in cookie))
      → IsNoted a (login_waited k cfg c body w served d now a).1
  unfolding login_waited login_claim
  login_waited-IsNoted w false h = refl
  login_waited-IsNoted (for_claim attempt pending) true h =
      elim (Bool-cases (
        text_beq (derive_password_keys k body.password pending.salt).auth_hash pending.auth_hash
        && same_user k body.username pending.username)) [
          | inl good ↦ rw (login_claim, good) refl
          | inr wrong ↦ rw (login_claim, wrong) (note-IsNoted "login_failed" c now a)
        ]
  login_waited-IsNoted (for_owner attempt owner) true h = login_owner-IsNoted attempt owner h
