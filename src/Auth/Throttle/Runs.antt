-- ===== src/Auth/Throttle/Runs.antt =====
-- Many attempts in a row, from any addresses: how long an address is kept out, and when it is let in again.
use wa_logger.Base.{
  ℕ, ◌+◌, ◌≤◌, ◌<◌, String, ◌≡◌, ◌∙◌, inl, inr, Bool, true, false, ◌&&◌, Option, none, some, List,
  [], ◌∷◌, arith, ok, ltb, Bool-cases,
}
use wa_logger.Base.Eq.{string_eq}
use wa_logger.Base.JsMap
use wa_logger.Auth.Throttle.{
  AuthLock, Throttle, prune, key_of, entry, charged_lock, charge_ip, charge_account, begin_key,
  begin, until, account_until,
}
use wa_logger.Auth.Throttle.Locks.{lock-prune, backoff_bounds}
use wa_logger.Auth.Throttle.Address.{
  IsBounded, accepted, same_key, begin-entry, begin-entry_self, begin-answer, begin-IsUnique,
  begin-IsBounded, charged_ip_locked,
}

-- The throttle after attempts, none of which succeeds.
unfoldable pub attempts : List (Option String × Bool × ℕ) → Throttle → Throttle
attempts [] t = t
attempts ((ip, global, now) ∷ es) t = attempts es (begin ip global now t).1

-- The times of attempts do not go back, and lie from `a` to `b`.
abbrev pub AreOrdered : ℕ → ℕ → List (Option String × Bool × ℕ) → Type 0
AreOrdered a b [] = a ≤ b
AreOrdered a b ((ip, global, now) ∷ es) = (a ≤ now) × AreOrdered now b es

-- The address is locked at all times from `a` on and before `b`.
abbrev IsLocked : String → ℕ → ℕ → Throttle → Type 0
IsLocked key a b t = (x : ℕ) → a ≤ x → x < b → ltb x (entry key x t).locked_until ≡ true

locked-accepted :
    (ip : Option String) (key : String) (global : Bool) (now : ℕ) (t : Throttle)
    → JsMap.IsUnique t.ips
    → ltb now (entry key now t).locked_until ≡ true
    → (accepted (begin ip global now t).0 && same_key (key_of ip) key) ≡ false
locked-accepted ip key global now t u l = elim (Bool-cases (same_key (key_of ip) key)) [
  | inr other ↦ ground (arith, other)
  | inl same ↦
      let e : key_of ip ≡ key = (string_eq.beq_iff (key_of ip) key).0 same in
      rw (begin-answer ip global now t u, e, l)
]

begin-IsLocked :
    (ip : Option String) (key : String) (global : Bool) (a b now : ℕ) (t : Throttle)
    → JsMap.IsUnique t.ips
    → IsLocked key a b t
    → a ≤ now
    → IsLocked key now b (begin ip global now t).1
begin-IsLocked ip key global a b now t u h le x from before =
    let l = h now le (omega (arith, from, before)) in
    rw (begin-entry ip key global now x t u from, locked-accepted ip key global now t u l)
      (h x (omega (arith, le, from)) before)

attempts-IsUnique :
    (es : List (Option String × Bool × ℕ)) (t : Throttle)
    → JsMap.IsUnique t.ips
    → JsMap.IsUnique (attempts es t).ips
unfolding attempts
attempts-IsUnique [] t u = u
attempts-IsUnique ((ip, global, now) ∷ es) t u =
    attempts-IsUnique es (begin ip global now t).1 (begin-IsUnique ip global now t u)

attempts-IsLocked :
    (es : List (Option String × Bool × ℕ)) (key : String) (a b limit : ℕ) (t : Throttle)
    → JsMap.IsUnique t.ips
    → IsLocked key a limit t
    → AreOrdered a b es
    → IsLocked key b limit (attempts es t)
unfolding attempts
attempts-IsLocked [] key a b limit t u h w = λ x from before. h x (omega (arith, w, from)) before
attempts-IsLocked ((ip, global, now) ∷ es) key a b limit t u h (le, w) =
    attempts-IsLocked es key now b limit (begin ip global now t).1
      (begin-IsUnique ip global now t u) (begin-IsLocked ip key global a limit now t u h le) w

-- After five failures an attempt that is let through locks its address: for 30 seconds, and while none succeeds, every
-- attempt from there is refused, whatever else is attempted from there or from elsewhere in between.
pub begin_spacing :
    (es : List (Option String × Bool × ℕ)) (ip : Option String) (global global' : Bool)
    (now later : ℕ) (t : Throttle)
    → JsMap.IsUnique t.ips
    → 5 ≤ (entry (key_of ip) now t).fails
    → accepted (begin ip global now t).0 ≡ true
    → AreOrdered now later es
    → later < now + 30_000
    → accepted (begin ip global' later (attempts es (begin ip global now t).1)).0 ≡ false
begin_spacing es ip global global' now later t u h a w lt =
    let t1 = (begin ip global now t).1 in
    let u1 = begin-IsUnique ip global now t u in
    let locked : IsLocked (key_of ip) now (now + 30_000) t1 = λ x from before.
      rw (begin-entry_self ip global now x t u from a)
        (charged_ip_locked now x (entry (key_of ip) now t) h before) in
    let l = attempts-IsLocked es (key_of ip) now later (now + 30_000) t1 u1 locked w in
    rw (
      begin-answer ip global' later (attempts es t1) (attempts-IsUnique es t1 u1),
      l later (omega arith) lt,
    )

attempts-IsBounded :
    (es : List (Option String × Bool × ℕ)) (a b limit : ℕ) (t : Throttle)
    → JsMap.IsUnique t.ips
    → IsBounded limit t
    → limit ≤ a + 3_600_000
    → AreOrdered a b es
    → IsBounded (b + 3_600_000) (attempts es t)
unfolding attempts
attempts-IsBounded [] a b limit t u h l w = λ k later le. h k later (omega (arith, l, w, le))
attempts-IsBounded ((ip, global, now) ∷ es) a b limit t u h l (f, w) =
    attempts-IsBounded es now b (now + 3_600_000) (begin ip global now t).1
      (begin-IsUnique ip global now t u)
      (begin-IsBounded ip global now limit t u h (omega (arith, l, f))) (omega arith) w

until-charged_lock :
    (now : ℕ) (l : AuthLock)
    → until l.locked_until ≤ now + 900_000
    → until (charged_lock now l).locked_until ≤ now + 900_000
unfolding charged_lock
until-charged_lock now l h =
    ground (arith, h, backoff_bounds (l.failed_logins + 1) 50 30_000 900_000 (omega arith))

begin_key_until :
    (key : String) (global : Bool) (now : ℕ) (t : Throttle)
    → account_until t.lock ≤ now + 900_000
    → account_until (begin_key key global now t).1.lock ≤ now + 900_000
unfolding begin_key charge_account charge_ip
begin_key_until key global now t h = elim (Bool-cases (ltb now (entry key now t).locked_until)) [
  | inl locked ↦ rw locked h
  | inr free ↦ rw free (charged global t.lock h)
]
  where
    charged :
        (g : Bool) (o : Option AuthLock)
        → account_until o ≤ now + 900_000
        → account_until (charge_account key g now (entry key now t) o t).1.lock ≤ now + 900_000
    charged false o k = h
    charged true none k = h
    charged true (some l) k = elim (Bool-cases (ltb now (until l.locked_until))) [
      | inl locked ↦ rw locked h
      | inr free ↦ rw free (until-charged_lock now l k)
    ]

-- No attempt locks the account for more than a quarter of an hour.
begin_until :
    (ip : Option String) (global : Bool) (now : ℕ) (t : Throttle)
    → account_until t.lock ≤ now + 900_000
    → account_until (begin ip global now t).1.lock ≤ now + 900_000
unfolding begin
begin_until ip global now t h =
    begin_key_until (key_of ip) global now (prune now t) (rw (lock-prune now t) h)

attempts_until :
    (es : List (Option String × Bool × ℕ)) (a b : ℕ) (t : Throttle)
    → account_until t.lock ≤ a + 900_000
    → AreOrdered a b es
    → account_until (attempts es t).lock ≤ b + 900_000
unfolding attempts
attempts_until [] a b t h w = omega (arith, h, w)
attempts_until ((ip, global, now) ∷ es) a b t h (f, w) =
    attempts_until es now b (begin ip global now t).1
      (begin_until ip global now t (omega (arith, h, f))) w

-- The right user is let in again: where at `first` no address is locked for more than an hour and the account for no
-- more than a quarter of one, then however many attempts are made from anywhere up to `last`, an attempt an hour
-- after `last` is let through, from any address and on the account too.
pub begin_after_hour :
    (es : List (Option String × Bool × ℕ)) (ip : Option String) (global : Bool)
    (first last now limit : ℕ) (t : Throttle)
    → JsMap.IsUnique t.ips
    → IsBounded limit t
    → limit ≤ first + 3_600_000
    → account_until t.lock ≤ first + 900_000
    → AreOrdered first last es
    → last + 3_600_000 ≤ now
    → (begin ip global now (attempts es t)).0 ≡ ok (record { ip = key_of ip; global = global })
begin_after_hour es ip global first last now limit t u b l g w h =
    let t' = attempts es t in
    let free = attempts-IsBounded es first last limit t u b l w (key_of ip) now h in
    let open_account : account_until t'.lock ≤ now =
      omega (arith, attempts_until es first last t g w, h) in
    begin-answer ip global now t' (attempts-IsUnique es t u) ∙ ground (arith, free, open_account)
