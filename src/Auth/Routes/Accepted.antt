-- ===== src/Auth/Routes/Accepted.antt =====
-- What a login must have had, and what a failed one leaves.
use wa_logger.Base.{
  ℕ, ◌≡◌, ◌⊎◌, Bool, true, false, Option, none, some, [], ◌∷◌, ◌&&◌, ok, arith, refl, inl, inr,
  Bool-cases, Option-cases, and_left, and_right,
}
use wa_logger.Base.Text.{Text, text_beq, text_beq_iff}
use wa_logger.Crypto.Gcm.{Buffer}
use wa_logger.Auth.Throttle.{Attempt, AuthLock, success}
use wa_logger.Auth.Store.{OwnerRow, Repo, consume_totp_step, is_later, audit, update_auth_lock}
use wa_logger.Auth.Sessions.{Kit, SessionConfig, unwrap_private_key, aad_password, create_session}
use wa_logger.Auth.Keys.{derive_password_keys, open_sealed}
use wa_logger.Auth.Totp.{verify_totp}
use wa_logger.Auth.Routes.{
  Auth, Caller, Draws, Reply, Factors-cases, second_factor, check_code, same_user, totp_context,
  note, refund, put_lock, throttle, start_session, passed,
}
use wa_logger.Auth.Routes.Login.{
  LoginBody, Waiting, for_claim, for_owner, login_waited, login_claim, login_owner, login_unlocked,
}

-- The step of the last code that was used.
abbrev pub last_step : Repo → Option ℕ
last_step r = elim r.owner [ none ↦ none | some o ↦ o.totp_last_step ]

module _ (k : Kit) where
  -- The code is one of a step that no code was used for since, in the store as it is now, and is used from now on.
  pub record IsConsumed (owner : OwnerRow) (pk code sealed : Buffer) (now : ℕ) (before after : Repo)
      : Type 0 where
    pub secret : Buffer
    pub step : ℕ
    pub current : OwnerRow
    pub opened : open_sealed k pk sealed totp_context ≡ some secret
    pub accepted : verify_totp k.hmac_sha1 secret code owner.totp_last_step now ≡ some step
    pub stored : before.owner ≡ some current
    pub unused : is_later current.totp_last_step step ≡ true
    pub used :
        after ≡ record before { owner = some (record current { totp_last_step = some step }) }

  -- Either the owner had no second factor, or the code was right.
  abbrev pub IsPassed : OwnerRow → Buffer → Option Text → ℕ → Repo → Repo → Type 0
  IsPassed owner pk totp now before after =
      (((owner.totp_enabled ≡ false) ⊎ (owner.totp_secret_enc ≡ none)) × (after ≡ before))
      ⊎ ((code : Text) × (sealed : Buffer) × (totp ≡ some code)
          × (owner.totp_secret_enc ≡ some sealed)
          × IsConsumed owner pk code sealed now before after)

  check_code-IsConsumed :
      (owner : OwnerRow) (sealed pk : Buffer) (code : Text) (now : ℕ) (r after : Repo)
      → check_code k owner sealed (some pk) code now r ≡ passed after
      → IsConsumed owner pk code sealed now r after
  unfolding check_code consume_totp_step
  check_code-IsConsumed owner sealed pk code now r after h =
      elim (Option-cases (open_sealed k pk sealed totp_context)) [
        | inl shut ↦ absurd (ground (arith, h, shut))
        | inr unsealed ↦
            elim (Option-cases (verify_totp k.hmac_sha1 unsealed.0 code owner.totp_last_step now)) [
              | inl wrong ↦ absurd (ground (arith, h, unsealed.1, wrong))
              | inr right ↦ elim (Option-cases r.owner) [
                | inl nobody ↦ absurd (ground (arith, h, unsealed.1, right.1, nobody))
                | inr there ↦ elim (Bool-cases (is_later there.0.totp_last_step right.0)) [
                  | inr late ↦ absurd (ground (arith, h, unsealed.1, right.1, there.1, late))
                  | inl fresh ↦ record {
                    secret = unsealed.0;
                    step = right.0;
                    current = there.0;
                    opened = unsealed.1;
                    accepted = right.1;
                    stored = there.1;
                    unused = fresh;
                    used = ground (arith, h, unsealed.1, right.1, there.1, fresh);
                  }
                ]
              ]
            ]
      ]

  pub second_factor-IsPassed :
      (owner : OwnerRow) (pk : Buffer) (totp : Option Text) (now : ℕ) (r after : Repo)
      → second_factor k owner (some pk) totp now r ≡ passed after
      → IsPassed owner pk totp now r after
  unfolding second_factor
  second_factor-IsPassed owner pk totp now r after h = elim (Bool-cases owner.totp_enabled) [
    | inr off ↦ inl (inl off, ground (arith, h, off))
    | inl on ↦ elim (Option-cases owner.totp_secret_enc) [
      | inl bare ↦ inl (inr bare, ground (arith, h, on, bare))
      | inr sealed ↦ inr (coded totp sealed.0 sealed.1 (with_code totp sealed.0 on sealed.1 h))
    ]
  ]
    where
      with_code :
          (t : Option Text) (sealed : Buffer)
          → owner.totp_enabled ≡ true
          → owner.totp_secret_enc ≡ some sealed
          → second_factor k owner (some pk) t now r ≡ passed after
          → (code : Text) × (t ≡ some code)
            × (check_code k owner sealed (some pk) code now r ≡ passed after)
      with_code none sealed on e g = absurd (ground (arith, on, e, g))
      with_code (some []) sealed on e g = absurd (ground (arith, on, e, g))
      with_code (some (c ∷ cs)) sealed on e g = (c ∷ cs, refl, ground (arith, on, e, g))

      coded :
          (t : Option Text) (sealed : Buffer)
          → owner.totp_secret_enc ≡ some sealed
          → ((code : Text) × (t ≡ some code)
              × (check_code k owner sealed (some pk) code now r ≡ passed after))
          → (code : Text) × (s : Buffer) × (t ≡ some code)
            × (owner.totp_secret_enc ≡ some s)
            × IsConsumed owner pk code s now r after
      coded t sealed e w =
          (w.0, sealed, w.1, e, check_code-IsConsumed owner sealed pk w.0 now r after w.2)

  -- What a login with a session must have had: the name and the password of the row that it read before the wait, and
  -- the second factor of that row; `final` is the store at the end.
  pub record IsAccepted (body : LoginBody) (w : Waiting) (now : ℕ) (before final : Repo)
      : Type 0 where
    pub attempt : Attempt
    pub owner : OwnerRow
    pub private_key : Buffer
    pub after : Repo
    pub waited : w ≡ for_owner attempt owner
    pub password :
        (derive_password_keys k body.password owner.pw_salt).auth_hash ≡ owner.pw_auth_hash
    pub name : same_user k body.username owner.username ≡ true
    pub unwrapped :
        unwrap_private_key k
          (derive_password_keys k body.password owner.pw_salt).kek
          owner.privkey_pw
          aad_password
        ≡ some private_key
    pub factor : IsPassed owner private_key body.totp now before after
    pub stays : last_step final ≡ last_step after

last_step-put_lock : (l : Option AuthLock) (r : Repo) → last_step (put_lock l r) ≡ last_step r
unfolding update_auth_lock
last_step-put_lock none r = refl
last_step-put_lock (some l) r = elim (Option-cases r.pending_claim) [
  | inr p ↦ rw p.1
  | inl n ↦ elim (Option-cases r.owner) [ inl e ↦ rw (n, e) | inr e ↦ rw (n, e.1) ]
]

last_step-refund :
    (attempt : Attempt) (a : Auth) → last_step (refund attempt a).repo ≡ last_step a.repo
unfolding refund
last_step-refund attempt a = last_step-put_lock (success attempt (throttle a)).lock a.repo

module _ (k : Kit) (cfg : SessionConfig) (c : Caller) (body : LoginBody) (d : Draws) (now : ℕ)
    (a : Auth) where
  login_unlocked-passed :
      (attempt : Attempt) (owner : OwnerRow) (pk cookie : Buffer)
      → (login_unlocked k cfg c body attempt owner pk d now a).0 ≡ ok (Reply.signed_in cookie)
      → (after : Repo) × (second_factor k owner (some pk) body.totp now a.repo ≡ passed after)
        × (last_step (login_unlocked k cfg c body attempt owner pk d now a).1.repo
            ≡ last_step after)
  unfolding login_unlocked start_session create_session note audit
  login_unlocked-passed attempt owner pk cookie h =
      elim (Factors-cases (second_factor k owner (some pk) body.totp now a.repo)) [
        | inl p ↦ (
          p.0,
          p.1,
          rw (login_unlocked, p.1) (last_step-refund attempt (record a { repo = p.0 })),
        )
        | inr (inl e) ↦ absurd (ground (arith, h, e))
        | inr (inr (inl e)) ↦ absurd (ground (arith, h, e))
        | inr (inr (inr e)) ↦ absurd (ground (arith, h, e))
      ]

  login_owner-IsAccepted :
      (attempt : Attempt) (owner : OwnerRow) (cookie : Buffer)
      → (login_owner k cfg c body attempt owner d now a).0 ≡ ok (Reply.signed_in cookie)
      → IsAccepted k body
          (for_owner attempt owner)
          now
          a.repo
          (login_owner k cfg c body attempt owner d now a).1.repo
  unfolding login_owner
  login_owner-IsAccepted attempt owner cookie h =
      let keys = derive_password_keys k body.password owner.pw_salt in
      let right = text_beq keys.auth_hash owner.pw_auth_hash in
      let named = same_user k body.username owner.username in
      elim (Bool-cases (right && named)) [
        | inr wrong ↦ absurd (ground (arith, h, wrong))
        | inl good ↦
            elim (Option-cases (unwrap_private_key k keys.kek owner.privkey_pw aad_password)) [
              | inl shut ↦ absurd (ground (arith, h, good, shut))
              | inr key ↦
                  let p =
                    login_unlocked-passed attempt owner key.0 cookie
                      (ground (arith, h, good, key.1)) in
                  record {
                    attempt = attempt;
                    owner = owner;
                    private_key = key.0;
                    after = p.0;
                    waited = refl;
                    password =
                        (text_beq_iff keys.auth_hash owner.pw_auth_hash).0
                          (and_left right named good);
                    name = and_right right named good;
                    unwrapped = key.1;
                    factor = second_factor-IsPassed k owner key.0 body.totp now a.repo p.0 p.1;
                    stays = rw (login_owner, good, key.1) p.2;
                  }
            ]
      ]

  -- A login starts a session only with the name and the password of the owner that it read before its wait, and, where
  -- that owner has a second factor, with a code for a step later than any used meanwhile, which is used up.
  pub login_waited-IsAccepted :
      (w : Waiting) (served : Bool) (cookie : Buffer)
      → (login_waited k cfg c body w served d now a).0 ≡ ok (Reply.signed_in cookie)
      → IsAccepted k body w now a.repo (login_waited k cfg c body w served d now a).1.repo
  unfolding login_waited login_claim
  login_waited-IsAccepted w false cookie h = absurd (ground (arith, h))
  login_waited-IsAccepted (for_claim attempt pending) true cookie h = absurd (ground (arith, h))
  login_waited-IsAccepted (for_owner attempt owner) true cookie h =
      login_owner-IsAccepted attempt owner cookie h
