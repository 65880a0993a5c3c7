-- ===== src/Auth/Throttle/Tests.antt =====
-- Runs of the throttle, and the theorems at concrete states.
use wa_logger.Base.{
  ℕ, ◌+◌, ◌-◌, ◌*◌, ◌≤◌, String, ◌≡◌, refl, Bool, true, false, Option, none, some, List, [], ◌∷◌,
  arith, ok,
}
use wa_logger.Base.Eq.{string_eq}
use wa_logger.Base.JsMap
use wa_logger.Auth.Throttle.{AuthLock, IpState, Throttle, fresh, entry, begin, decayed}
use wa_logger.Auth.Throttle.Rate.{guesses, guesses_per_quarter_hour}
use wa_logger.Auth.Throttle.Address.{begin-entry, begin-IsBounded, accepted, IsBounded}
use wa_logger.Auth.Throttle.Runs.{attempts, begin_spacing, begin_after_hour}

abbrev guessed_lock : AuthLock
guessed_lock = record { failed_logins = 60; locked_until = some 500 }

abbrev five_failures : IpState
five_failures = record { fails = 5; locked_until = 0; last = 900 }

abbrev busy : Throttle
busy = record {
  ips = ("10.0.0.1", five_failures) ∷ ("10.0.0.2", fresh 800) ∷ [];
  lock = some guessed_lock;
}

busy-IsUnique : JsMap.IsUnique busy.ips
unfolding JsMap.get
busy-IsUnique = (refl, (refl, tt))

abbrev guess_list : List (Option String × ℕ)
guess_list = (some "10.0.0.1", 1000) ∷ (some "10.0.0.2", 2000) ∷ (none, 901_000) ∷ []

guesses_run : guesses guess_list busy ≡ 2
unfolding guesses begin JsMap.get JsMap.set
guesses_run = refl

guesses_per_quarter_hour_example : guesses guess_list busy * 900_000 ≤ (901_000 - 1000) + 900_000
guesses_per_quarter_hour_example =
    guesses_per_quarter_hour guess_list 1000 901_000 busy guessed_lock refl (omega arith)
      (omega arith)

accepted_run : accepted (begin (some "10.0.0.1") true 1000 busy).0 ≡ true
unfolding begin JsMap.get JsMap.set
accepted_run = refl

enough_failures : 5 ≤ (entry "10.0.0.1" 1000 busy).fails
unfolding entry JsMap.get
enough_failures = omega arith

-- One from the locked address, and one from elsewhere.
abbrev attempt_list : List (Option String × Bool × ℕ)
attempt_list = (some "10.0.0.1", true, 2000) ∷ (some "10.0.0.2", true, 3000) ∷ []

begin_spacing_example :
    accepted
      (begin
        (some "10.0.0.1")
        false
        30_000
        (attempts attempt_list (begin (some "10.0.0.1") true 1000 busy).1)).0
    ≡ false
begin_spacing_example =
    begin_spacing attempt_list (some "10.0.0.1") true false 1000 30_000 busy busy-IsUnique
      enough_failures accepted_run (omega arith, (omega arith, omega arith)) (omega arith)

begin-entry_example :
    entry "10.0.0.2" 5000 (begin (some "10.0.0.1") true 1000 busy).1 ≡ entry "10.0.0.2" 5000 busy
unfolding begin JsMap.get JsMap.set
begin-entry_example =
    begin-entry (some "10.0.0.1") "10.0.0.2" true 1000 5000 busy busy-IsUnique (omega arith)

abbrev start : Throttle
start = record { ips = []; lock = none }

start-IsBounded : (limit : ℕ) → IsBounded limit start
unfolding entry decayed JsMap.get
start-IsBounded limit k later h = ground arith

begin-IsBounded_example : IsBounded 3_600_007 (begin (some "10.0.0.1") true 7 start).1
begin-IsBounded_example =
    begin-IsBounded (some "10.0.0.1") true 7 0 start tt (start-IsBounded 0) (omega arith)

begin_after_hour_example :
    (begin (some "10.0.0.1") true 3_603_000 (attempts attempt_list start)).0
    ≡ ok (record { ip = "10.0.0.1"; global = true })
begin_after_hour_example =
    begin_after_hour attempt_list (some "10.0.0.1") true 0 3000 3_603_000 0 start tt
      (start-IsBounded 0) (omega arith) (omega arith) (omega arith, (omega arith, omega arith))
      (omega arith)
