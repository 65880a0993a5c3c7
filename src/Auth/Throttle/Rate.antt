-- ===== src/Auth/Throttle/Rate.antt =====
-- What a guesser can do: how far apart the attempts on one account must be.
use mathlib.Core.Path.{subst}
use wa_logger.Base.{
  ℕ, ◌+◌, ◌-◌, ◌*◌, ◌≤◌, max, String, ◌≡◌, refl, ◌⊎◌, inl, inr, true, Option, some, List, [], ◌∷◌,
  arith, Result, ok, err, ltb, Bool-cases, ◌∙◌, sym,
}
use wa_logger.Auth.Throttle.{
  AuthLock, IpState, Throttle, Attempt, backoff, prune, key_of, charged_lock, charge_account, entry,
  begin_key, begin, until,
}
use wa_logger.Auth.Throttle.Locks.{lock-prune, two_pow_5_le}

-- Whether an attempt was let through.
unfoldable pub charged : Result Attempt → ℕ
charged (ok a) = 1
charged (err e) = 0

-- Attempts on one account from anywhere, none of which succeeds: how many are let through.
unfoldable pub guesses : List (Option String × ℕ) → Throttle → ℕ
unfolding charged
guesses [] t = 0
guesses ((ip, now) ∷ rest) t =
    charged (begin ip true now t).0 + guesses rest (begin ip true now t).1

-- The times of the attempts do not fall, and lie between two times.
abbrev pub Within : ℕ → ℕ → List (Option String × ℕ) → Type 0
Within a b [] = a ≤ b
Within a b ((ip, now) ∷ rest) = (a ≤ now) × Within now b rest

ordered : (es : List (Option String × ℕ)) (a b : ℕ) → Within a b es → a ≤ b
ordered [] a b w = w
ordered ((ip, now) ∷ es) a b w = omega (arith, ordered es now b w.1)

long_backoff : (n : ℕ) → 56 ≤ n → backoff n 50 30_000 900_000 ≡ 900_000
unfolding backoff
long_backoff n h = omega (arith, two_pow_5_le (n - 50 - 1) (omega arith))

-- One attempt on an account with many failures.
abbrev Stepped : ℕ → AuthLock → Result Attempt × Throttle → Type 0
Stepped now l r =
    ((charged r.0 ≡ 0) × (r.1.lock ≡ some l))
    ⊎ ((charged r.0 ≡ 1)
        × (until l.locked_until ≤ now)
        × ((l' : AuthLock) × (r.1.lock ≡ some l')
            × (55 ≤ l'.failed_logins)
            × (now + 900_000 ≤ until l'.locked_until)))

charge_account-Stepped :
    (key : String) (now : ℕ) (t : Throttle) (st : IpState) (l : AuthLock)
    → t.lock ≡ some l
    → 55 ≤ l.failed_logins
    → Stepped now l (charge_account key true now st (some l) t)
unfolding charge_account charged_lock charged
charge_account-Stepped key now t st l e h = elim (Bool-cases (ltb now (until l.locked_until))) [
  | inl locked ↦ rw locked (inl (refl, e))
  | inr free ↦ rw free (
      inr (
        refl,
        ground arith,
        (charged_lock now l, refl, omega arith, ground (arith, long_backoff (l.failed_logins + 1))),
      ))
]

begin_key-Stepped :
    (key : String) (now : ℕ) (t : Throttle) (l : AuthLock)
    → t.lock ≡ some l
    → 55 ≤ l.failed_logins
    → Stepped now l (begin_key key true now t)
unfolding begin_key charged
begin_key-Stepped key now t l e h = elim (Bool-cases (ltb now (entry key now t).locked_until)) [
  | inl locked ↦ rw locked (inl (refl, e))
  | inr free ↦ rw free (
      subst (λ o. Stepped now l (charge_account key true now (entry key now t) o t)) (sym e)
        (charge_account-Stepped key now t (entry key now t) l e h))
]

begin-Stepped :
    (ip : Option String) (now : ℕ) (t : Throttle) (l : AuthLock)
    → t.lock ≡ some l
    → 55 ≤ l.failed_logins
    → Stepped now l (begin ip true now t)
unfolding begin
begin-Stepped ip now t l e h =
    begin_key-Stepped (key_of ip) now (prune now t) l (lock-prune now t ∙ e) h

-- The bound that the induction carries: the next guess waits for the lock.
guesses_bound :
    (es : List (Option String × ℕ)) (a b : ℕ) (t : Throttle) (l : AuthLock)
    → t.lock ≡ some l
    → 55 ≤ l.failed_logins
    → Within a b es
    → (guesses es t ≡ 0) ⊎ (guesses es t * 900_000 + max a (until l.locked_until) ≤ b + 900_000)
unfolding guesses
guesses_bound [] a b t l e h w = inl refl
guesses_bound ((ip, now) ∷ es) a b t l e h w = elim (begin-Stepped ip now t l e h) [
  | inl (c, e') ↦ omega (arith, c, guesses_bound es now b (begin ip true now t).1 l e' h w.1)
  | inr (c, free, (l', e', h', later)) ↦
      omega (
        arith,
        c,
        guesses_bound es now b (begin ip true now t).1 l' e' h' w.1,
        ordered es now b w.1,
      )
]

-- Once 55 attempts on an account have failed in a row, an attacker with any number of addresses gets
-- at most one guess per 15 minutes: between the times a and b at most (b - a) / 900000 + 1 guesses are
-- let through, however many are made.
pub guesses_per_quarter_hour :
    (es : List (Option String × ℕ)) (a b : ℕ) (t : Throttle) (l : AuthLock)
    → t.lock ≡ some l
    → 55 ≤ l.failed_logins
    → Within a b es
    → guesses es t * 900_000 ≤ (b - a) + 900_000
guesses_per_quarter_hour es a b t l e h w =
    omega (arith, guesses_bound es a b t l e h w, ordered es a b w)
