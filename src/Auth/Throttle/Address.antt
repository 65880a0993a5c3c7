-- ===== src/Auth/Throttle/Address.antt =====
-- What one attempt does to the counters of an address, its own and the others'.
use mathlib.Core.Option
use native.Mathlib.Nat.{le_refl}
use wa_logger.Base.{
  ℕ, ◌+◌, ◌-◌, ◌≤◌, ◌<◌, String, ◌≡◌, refl, inl, inr, Bool, true, false, ◌&&◌, Option, none, some,
  arith, Result, ok, err, ltb, if◌then◌else◌, Bool-cases, ◌∙◌,
}
use wa_logger.Base.Errors
use wa_logger.Base.Eq.{string_eq}
use wa_logger.Base.JsMap
use wa_logger.Auth.Throttle.{
  AuthLock, IpState, Throttle, Attempt, fresh, prune, key_of, entry, decayed, charged_ip,
  charged_lock, charge_ip, charge_account, begin_key, begin, success, until, account_until, cleared,
}
use wa_logger.Auth.Throttle.Locks.{lock-prune, entry-prune, prune-IsUnique, backoff_bounds}

-- What an attempt is answered with, by the entry of its address and the lock of the account.
abbrev pub answer : String → Bool → ℕ → IpState → Option AuthLock → Result Attempt
answer key global now st lock =
    if ltb now st.locked_until
    then err (Errors.rate_limited (st.locked_until - now))
    else if global && ltb now (account_until lock)
    then err (Errors.rate_limited (account_until lock - now))
    else ok (record { ip = key; global = global })

charge_account-answer :
    (key : String) (global : Bool) (now : ℕ) (st : IpState) (o : Option AuthLock) (t : Throttle)
    → ltb now st.locked_until ≡ false
    → (charge_account key global now st o t).0 ≡ answer key global now st o
unfolding charge_account
charge_account-answer key false now st o t h = rw h
charge_account-answer key true now st none t h = ground arith
charge_account-answer key true now st (some l) t h = ground arith

-- Whether an attempt is let through depends on the entry of its address and the lock of the account.
pub begin-answer :
    (ip : Option String) (global : Bool) (now : ℕ) (t : Throttle)
    → JsMap.IsUnique t.ips
    → (begin ip global now t).0 ≡ answer (key_of ip) global now (entry (key_of ip) now t) t.lock
unfolding begin begin_key
begin-answer ip global now t u =
    elim (Bool-cases (ltb now (entry (key_of ip) now t).locked_until)) [
      | inl locked ↦ rw (entry-prune (key_of ip) now now t (le_refl now) u, locked)
      | inr free ↦
          rw (entry-prune (key_of ip) now now t (le_refl now) u, free)
            (rw (
              charge_account-answer (key_of ip) global now (entry (key_of ip) now t)
                  (prune now t).lock (prune now t) free,
              lock-prune now t,
              free,
            ))
    ]

abbrev pub accepted : Result Attempt → Bool
accepted (ok a) = true
accepted (err e) = false

abbrev pub same_key : String → String → Bool
same_key k j = string_eq.beq k j

-- The entry that address `j` has at a later time, after an attempt from `key`.
abbrev entry_after : String → String → ℕ → ℕ → IpState → Bool → Throttle → IpState
entry_after key j now later st accept t =
    if accept && same_key key j then decayed later (charged_ip now st) else entry j later t

charge_ip-entry :
    (key j : String) (global : Bool) (now later : ℕ) (st : IpState) (t : Throttle)
    → entry j later (charge_ip key global now st t).1 ≡ entry_after key j now later st true t
unfolding charge_ip entry
charge_ip-entry key j global now later st t =
    ground (arith, JsMap.get-set key j (charged_ip now st) t.ips)

charge_account-entry :
    (key j : String) (global : Bool) (now later : ℕ) (st : IpState) (o : Option AuthLock)
    (t : Throttle)
    → entry j later (charge_account key global now st o t).1
      ≡ entry_after key j now later st (accepted (charge_account key global now st o t).0) t
unfolding charge_account
charge_account-entry key j false now later st o t =
    unfold charge_ip in charge_ip-entry key j false now later st t
charge_account-entry key j true now later st none t =
    unfold charge_ip in charge_ip-entry key j true now later st t
charge_account-entry key j true now later st (some l) t =
    elim (Bool-cases (ltb now (until l.locked_until))) [
      | inl locked ↦ rw locked
      | inr free ↦ rw free (
          unfold charge_ip entry in
          charge_ip-entry key j true now later st (record t { lock = some (charged_lock now l) }))
    ]

begin_key-entry :
    (key j : String) (global : Bool) (now later : ℕ) (t : Throttle)
    → entry j later (begin_key key global now t).1
      ≡ entry_after key j now later (entry key now t) (accepted (begin_key key global now t).0) t
unfolding begin_key
begin_key-entry key j global now later t =
    elim (Bool-cases (ltb now (entry key now t).locked_until)) [
      | inl locked ↦ rw locked
      | inr free ↦ rw free (charge_account-entry key j global now later (entry key now t) t.lock t)
    ]

-- An attempt that is let through charges its own address. One that is refused charges none, and
-- neither touches another address: what each address has at any later time is as before.
pub begin-entry :
    (ip : Option String) (j : String) (global : Bool) (now later : ℕ) (t : Throttle)
    → JsMap.IsUnique t.ips
    → now ≤ later
    → entry j later (begin ip global now t).1 ≡ (
        if accepted (begin ip global now t).0 && same_key (key_of ip) j
        then decayed later (charged_ip now (entry (key_of ip) now t))
        else entry j later t)
unfolding begin
begin-entry ip j global now later t u h =
    begin_key-entry (key_of ip) j global now later (prune now t)
    ∙ cc (entry-prune (key_of ip) now now t (le_refl now) u, entry-prune j now later t h u)

pub charged_ip_locked :
    (now later : ℕ) (st : IpState)
    → 5 ≤ st.fails
    → later < now + 30_000
    → ltb later (decayed later (charged_ip now st)).locked_until ≡ true
unfolding charged_ip decayed
charged_ip_locked now later st h w =
    ground (arith, backoff_bounds (st.fails + 1) 5 30_000 3_600_000 (omega arith))

charge_account-IsUnique :
    (key : String) (global : Bool) (now : ℕ) (st : IpState) (o : Option AuthLock) (t : Throttle)
    → JsMap.IsUnique t.ips
    → JsMap.IsUnique (charge_account key global now st o t).1.ips
unfolding charge_account
charge_account-IsUnique key false now st o t u = JsMap.set-IsUnique key (charged_ip now st) t.ips u
charge_account-IsUnique key true now st none t u =
    JsMap.set-IsUnique key (charged_ip now st) t.ips u
charge_account-IsUnique key true now st (some l) t u =
    elim (Bool-cases (ltb now (until l.locked_until))) [
      | inl locked ↦ rw locked u
      | inr free ↦ rw free (JsMap.set-IsUnique key (charged_ip now st) t.ips u)
    ]

pub begin-IsUnique :
    (ip : Option String) (global : Bool) (now : ℕ) (t : Throttle)
    → JsMap.IsUnique t.ips
    → JsMap.IsUnique (begin ip global now t).1.ips
unfolding begin begin_key
begin-IsUnique ip global now t u =
    elim (Bool-cases (ltb now (entry (key_of ip) now (prune now t)).locked_until)) [
      | inl locked ↦ rw locked (prune-IsUnique now t u)
      | inr free ↦ rw free (
          charge_account-IsUnique (key_of ip) global now (entry (key_of ip) now (prune now t))
            (prune now t).lock (prune now t) (prune-IsUnique now t u))
    ]

-- The entry of the attempt's own address after it was let through.
pub begin-entry_self :
    (ip : Option String) (global : Bool) (now later : ℕ) (t : Throttle)
    → JsMap.IsUnique t.ips
    → now ≤ later
    → accepted (begin ip global now t).0 ≡ true
    → entry (key_of ip) later (begin ip global now t).1
      ≡ decayed later (charged_ip now (entry (key_of ip) now t))
begin-entry_self ip global now later t u h a =
    begin-entry ip (key_of ip) global now later t u h
    ∙ rw (a, (string_eq.beq_iff (key_of ip) (key_of ip)).1 refl)

-- No address is locked past `limit`.
abbrev pub IsBounded : ℕ → Throttle → Type 0
IsBounded limit t =
    (k : String) (later : ℕ) → limit ≤ later → (entry k later t).locked_until ≤ later

charged_ip-bounded :
    (now later : ℕ) (st : IpState)
    → st.locked_until ≤ now
    → now + 3_600_000 ≤ later
    → (decayed later (charged_ip now st)).locked_until ≤ later
unfolding charged_ip decayed
charged_ip-bounded now later st h w =
    ground (arith, backoff_bounds (st.fails + 1) 5 30_000 3_600_000 (omega arith))

-- An accepted attempt found its address not locked.
begin-accepted_free :
    (ip : Option String) (global : Bool) (now : ℕ) (t : Throttle)
    → JsMap.IsUnique t.ips
    → accepted (begin ip global now t).0 ≡ true
    → (entry (key_of ip) now t).locked_until ≤ now
begin-accepted_free ip global now t u a = ground (arith, begin-answer ip global now t u)

-- Whatever is attempted, no address stays locked for more than an hour after the last attempt.
pub begin-IsBounded :
    (ip : Option String) (global : Bool) (now limit : ℕ) (t : Throttle)
    → JsMap.IsUnique t.ips
    → IsBounded limit t
    → limit ≤ now + 3_600_000
    → IsBounded (now + 3_600_000) (begin ip global now t).1
begin-IsBounded ip global now limit t u b h k later w =
    rw (begin-entry ip k global now later t u (omega arith))
      (elim (Bool-cases (accepted (begin ip global now t).0 && same_key (key_of ip) k)) [
        | inl both ↦ rw both (
            charged_ip-bounded now later (entry (key_of ip) now t)
              (begin-accepted_free ip global now t u (ground arith)) w)
        | inr other ↦ rw other (b k later (omega arith))
      ])

-- `success` forgets the failures of the attempt's address and, if it was counted against the account,
-- those of the account. The other addresses keep theirs.
success_lem :
    (a : Attempt) (j : String) (later : ℕ) (t : Throttle)
    → (entry j later (success a t) ≡ (if same_key a.ip j then fresh later else entry j later t))
      × ((success a t).lock ≡ (if a.global then Option.map (λ l. cleared) t.lock else t.lock))
unfolding success entry decayed
success_lem a j later t = (ground (arith, JsMap.get-delete a.ip j t.ips), ground arith)
