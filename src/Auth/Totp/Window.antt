-- ===== src/Auth/Totp/Window.antt =====
-- Which codes are accepted.
use wa_logger.Base.{
  ℕ, zero, suc, if◌then◌else◌, ◌+◌, ◌-◌, ◌≤◌, ◌<◌, ◌≡◌, ◌↔◌, ◌≢◌, true, Option, none, some, List,
  [], ◌∷◌, arith, leb, inl, inr, Bool-cases, ==_iff, ◌==◌, refl, ap, sym, Bool, false, ◌⊎◌,
}
use mathlib.Core.Path.{subst}
use wa_logger.Base.Text.{Text, text_beq}
use wa_logger.Crypto.Gcm.{Buffer}
use wa_logger.Auth.Totp.{
  current_step, hotp, drop_spaces, is_code, first_match, is_used, verify_totp,
}

-- `step` is within one step of now, has the code, and no earlier step of the window has it.
pub record IsMatch (code_of : ℕ → Text) (clean : Text) (now step : ℕ) : Type 0 where
  pub near : (now ≤ step + 1) × (step ≤ now + 1)
  pub has : text_beq (code_of step) clean ≡ true
  pub first : (s : ℕ) → now ≤ s + 1 → s < step → text_beq (code_of s) clean ≢ true

-- Later than the step that was used last, if one was.
abbrev pub IsUnused : Option ℕ → ℕ → Type 0
IsUnused last step = (l : ℕ) → last ≡ some l → l < step

module _ (code_of : ℕ → Text) (clean : Text) (before : ℕ) where
  abbrev fits : ℕ → Bool
  fits s = text_beq (code_of s) clean

  first_match-IsMatch :
      (step : ℕ)
      → first_match code_of clean (before ∷ (before + 1) ∷ (before + 2) ∷ []) ≡ some step
      → IsMatch code_of clean (before + 1) step
  unfolding first_match
  first_match-IsMatch step h = elim (Bool-cases (fits before)) [
    | inl a ↦
        let e : before ≡ step = ground (arith, h, a) in
        subst (IsMatch code_of clean (before + 1)) e
          (record { near = omega arith; has = a; first = λ s l u. absurd (omega (arith, l, u)) })
    | inr na ↦ elim (Bool-cases (fits (before + 1))) [
      | inl b ↦
          let e : before + 1 ≡ step = ground (arith, h, na, b) in
          subst (IsMatch code_of clean (before + 1)) e (record {
            near = omega arith;
            has = b;
            first =
                λ s l u. let is : s ≡ before = omega (arith, l, u) in rw is (ground (arith, na));
          })
      | inr nb ↦ elim (Bool-cases (fits (before + 2))) [
        | inl c ↦
            let e : before + 2 ≡ step = ground (arith, h, na, nb, c) in
            subst (IsMatch code_of clean (before + 1)) e (record {
              near = omega arith;
              has = c;
              first = λ s l u. earlier s na nb (omega (arith, l, u));
            })
        | inr nc ↦ absurd (ground (arith, h, na, nb, nc))
      ]
    ]
  ]
    where
      earlier :
          (s : ℕ)
          → fits before ≡ false
          → fits (before + 1) ≡ false
          → (s ≡ before) ⊎ (s ≡ before + 1)
          → fits s ≢ true
      earlier s na nb (inl e) = rw e (ground (arith, na))
      earlier s na nb (inr e) = rw e (ground (arith, nb))

  IsMatch-first_match :
      (step : ℕ)
      → IsMatch code_of clean (before + 1) step
      → first_match code_of clean (before ∷ (before + 1) ∷ (before + 2) ∷ []) ≡ some step
  unfolding first_match
  IsMatch-first_match step m = elim (Bool-cases (step == before)) [
    | inl a ↦
        let e : step ≡ before = (==_iff step before).0 a in
        let has : fits before ≡ true = subst (λ s. fits s ≡ true) e m.has in
        rw has (ap some (sym e))
    | inr na ↦
        let l0 : before < step = ground (arith, na, m.near) in
        elim (Bool-cases (step == before + 1)) [
          | inl b ↦
              let e : step ≡ before + 1 = (==_iff step (before + 1)).0 b in
              let has : fits (before + 1) ≡ true = subst (λ s. fits s ≡ true) e m.has in
              ground (arith, has, e, m.first before (omega arith) l0)
          | inr nb ↦
              let e : step ≡ before + 2 = ground (arith, na, nb, m.near) in
              let has : fits (before + 2) ≡ true = subst (λ s. fits s ≡ true) e m.has in
              ground (
                arith,
                has,
                e,
                m.first before (omega arith) l0,
                m.first (before + 1) (omega arith) (omega (arith, e)),
              )
        ]
  ]

abbrev window : ℕ → List ℕ
window now = (now - 1) ∷ now ∷ (now + 1) ∷ []

window-IsMatch :
    (code_of : ℕ → Text) (clean : Text) (now step : ℕ)
    → 1 ≤ now
    → (first_match code_of clean (window now) ≡ some step) ↔ IsMatch code_of clean now step
window-IsMatch code_of clean zero step pos = absurd (omega (arith, pos))
window-IsMatch code_of clean (suc b) step pos =
    let e0 : suc b - 1 ≡ b = omega arith in
    let e1 : suc b ≡ b + 1 = omega arith in
    let e2 : suc b + 1 ≡ b + 2 = omega arith in
    rw (e0, e2, e1)
      (first_match-IsMatch code_of clean b step, IsMatch-first_match code_of clean b step)

accept_iff :
    (last found : Option ℕ) (step : ℕ)
    → ((elim found [
      | none ↦ none
      | some matched ↦ if is_used last matched then none else some matched
    ])
        ≡ some step)
      ↔ ((found ≡ some step) × IsUnused last step)
accept_iff last none step = (λ h. absurd (ground (arith, h)), λ h. h.0)
accept_iff none (some m) step = (λ h. (h, λ l e. absurd (ground (arith, e))), λ h. h.0)
accept_iff (some l) (some m) step = elim (Bool-cases (leb m l)) [
  | inl used ↦
      rw used (λ h. absurd (ground (arith, h)), λ h. absurd (ground (arith, h.0, used, h.1 l refl)))
  | inr unused ↦ rw unused (λ h. (h, λ k e. ground (arith, h, e, unused)), λ h. h.0)
]

-- After the first half minute of 1970: a code is accepted exactly when, spaces dropped, it has six digits, is the code of
-- one of the three steps around now, and the first of them whose code it is comes after the step that was used last;
-- that first step comes back.
pub verify_totp_lem :
    (hmac : Buffer → Buffer → Buffer) (secret : Buffer) (code : Text) (last : Option ℕ)
    (now step : ℕ)
    → 1 ≤ current_step now
    → (verify_totp hmac secret code last now ≡ some step) ↔ (
        (is_code (drop_spaces code) ≡ true)
        × IsMatch (hotp hmac secret) (drop_spaces code) (current_step now) step
        × IsUnused last step)
unfolding verify_totp
verify_totp_lem hmac secret code last now step pos =
    let w = window-IsMatch (hotp hmac secret) (drop_spaces code) (current_step now) step pos in
    let a =
      accept_iff last
        (first_match (hotp hmac secret) (drop_spaces code) (window (current_step now))) step in
    elim (Bool-cases (is_code (drop_spaces code))) [
      | inl is ↦ rw is (λ h. (refl, w.0 (a.0 h).0, (a.0 h).1), λ h. a.1 (w.1 h.1, h.2))
      | inr other ↦ rw other (ground arith)
    ]
