-- ===== src/Auth/Throttle/Locks.antt =====
-- Pruning, decay and the bounds on locks.
use native.Mathlib.Nat.{pow-suc}
use wa_logger.Base.{zero, suc, ◌^◌, ◌-◌, Bool-cases, ==_iff, ◌==◌, inl, inr}
use wa_logger.Base.{
  ℕ, ◌≤◌, String, ◌≡◌, refl, Option, none, some, [], ◌∷◌, arith, if◌then◌else◌, or_else,
}
use wa_logger.Base.Eq.{string_eq}
use wa_logger.Base.JsMap
use wa_logger.Base.JsMap.{JsMap}
use wa_logger.Auth.Throttle.{
  IpState, Throttle, fresh, backoff, stale, drop_stale, prune, decayed, entry,
}

abbrev kept : ℕ → Option IpState → Option IpState
kept now none = none
kept now (some v) = if stale now v then none else some v

get-drop_stale :
    (now : ℕ) (k : String) (m : JsMap String IpState)
    → JsMap.IsUnique m
    → JsMap.get k (drop_stale now m) ≡ kept now (JsMap.get k m)
unfolding drop_stale JsMap.get
get-drop_stale now k [] u = refl
get-drop_stale now k ((j, v) ∷ m) u =
    ground (arith, get-drop_stale now k m u.1, string_eq.beq_iff j k)

drop_stale-IsUnique :
    (now : ℕ) (m : JsMap String IpState) → JsMap.IsUnique m → JsMap.IsUnique (drop_stale now m)
unfolding drop_stale
drop_stale-IsUnique now [] u = tt
drop_stale-IsUnique now ((k, v) ∷ m) u =
    ground (arith, drop_stale-IsUnique now m u.1, get-drop_stale now k m u.1)

-- What is dropped would have decayed, then and at any later time.
decayed-kept :
    (now later : ℕ) (o : Option IpState)
    → now ≤ later
    → decayed later (or_else (kept now o) (fresh later)) ≡ decayed later (or_else o (fresh later))
unfolding decayed stale
decayed-kept now later none h = refl
decayed-kept now later (some v) h = ground arith

-- Dropping stale addresses is invisible: from then on every address has the entry that it had.
pub entry-prune :
    (key : String) (now later : ℕ) (t : Throttle)
    → now ≤ later
    → JsMap.IsUnique t.ips
    → entry key later (prune now t) ≡ entry key later t
unfolding entry prune
entry-prune key now later t h u =
    ground (arith, get-drop_stale now key t.ips u, decayed-kept now later (JsMap.get key t.ips) h)

pub lock-prune : (now : ℕ) (t : Throttle) → (prune now t).lock ≡ t.lock
unfolding prune
lock-prune now t = ground arith

pub prune-IsUnique :
    (now : ℕ) (t : Throttle) → JsMap.IsUnique t.ips → JsMap.IsUnique (prune now t).ips
unfolding prune
prune-IsUnique now t u = ground (arith, drop_stale-IsUnique now t.ips u)

two_pow_pos : (k : ℕ) → 1 ≤ 2 ^ k
two_pow_pos zero = omega arith
two_pow_pos (suc k) = rw pow-suc (omega (arith, two_pow_pos k))

pub two_pow_5_le : (k : ℕ) → 5 ≤ k → 32 ≤ 2 ^ k
two_pow_5_le zero h = absurd (omega arith)
two_pow_5_le (suc k) h = elim (Bool-cases (k == 4)) [
  | inl e ↦ let e' : k ≡ 4 = (==_iff k 4).0 e in rw e' (omega arith)
  | inr ne ↦ rw pow-suc (omega (arith, two_pow_5_le k (ground arith)))
]

-- A lock lasts at least the base time and at most the cap.
pub backoff_bounds :
    (n threshold base cap : ℕ)
    → base ≤ cap
    → (base ≤ backoff n threshold base cap) × (backoff n threshold base cap ≤ cap)
unfolding backoff
backoff_bounds n threshold base cap h = grind (arith, two_pow_pos (n - threshold - 1))
