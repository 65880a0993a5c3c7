-- ===== src/Auth/Throttle.antt =====
-- server/src/auth/throttle.ts: brute-force throttling of credential checks. Times are milliseconds.
-- `Map` entries are objects that `begin` changes in place; it reads an entry, and writes it back, with
-- no other access between, so a value that is put back is the same. An operation that throws keeps
-- what it wrote before, so the state comes back beside the error.
pub mod Locks
pub mod Rate
pub mod Address
pub mod Runs
mod Tests
use wa_logger.Base.{
  ℕ, zero, suc, ◌+◌, ◌-◌, ◌*◌, ◌^◌, min, String, Bool, true, false, ◌&&◌, Option, none, some, List,
  [], ◌∷◌, Result, ok, err, ltb, leb, if◌then◌else◌, or_else, length,
}
use wa_logger.Base.Errors
use wa_logger.Base.Eq.{string_eq}
use wa_logger.Base.JsMap
use wa_logger.Base.JsMap.{JsMap}

abbrev pub ip_threshold : ℕ
ip_threshold = 5

abbrev pub ip_base_ms : ℕ
ip_base_ms = 30_000

abbrev pub ip_max_ms : ℕ
ip_max_ms = 3_600_000

abbrev pub global_threshold : ℕ
global_threshold = 50

abbrev pub global_base_ms : ℕ
global_base_ms = 30_000

abbrev pub global_max_ms : ℕ
global_max_ms = 900_000

abbrev pub ip_entry_ttl_ms : ℕ
ip_entry_ttl_ms = 86_400_000

abbrev pub prune_size : ℕ
prune_size = 5000

pub record IpState : Type 0 where
  pub fails : ℕ
  pub locked_until : ℕ
  pub last : ℕ

-- The counters of one account: `AuthLock` of server/src/db/repo.ts.
pub record AuthLock : Type 0 where
  pub failed_logins : ℕ
  pub locked_until : Option ℕ

pub record Attempt : Type 0 where
  pub ip : String
  pub global : Bool

-- `lock` is what `getAuthLock` of the store returns: `none` for the gateway, which has no store.
pub record Throttle : Type 0 where
  pub ips : JsMap String IpState
  pub lock : Option AuthLock

abbrev pub fresh : ℕ → IpState
fresh now = record { fails = 0; locked_until = 0; last = now }

unfoldable pub backoff : ℕ → ℕ → ℕ → ℕ → ℕ
backoff n threshold base cap = min (base * 2 ^ (n - threshold - 1)) cap

-- `locked_until && locked_until > now`; `null` and 0 are not past `now`.
abbrev pub until : Option ℕ → ℕ
until u = or_else u 0

-- Until when the account is locked: 0 with no lock.
abbrev pub account_until : Option AuthLock → ℕ
account_until none = 0
account_until (some l) = until l.locked_until

-- `this.prune`: a subtraction below 0 is not past the limit either way.
unfoldable pub stale : ℕ → IpState → Bool
stale now v = ltb ip_entry_ttl_ms (now - v.last) && ltb v.locked_until now

unfoldable pub drop_stale : ℕ → JsMap String IpState → JsMap String IpState
drop_stale now [] = []
drop_stale now ((k, v) ∷ m) =
    let rest = drop_stale now m in if stale now v then rest else (k, v) ∷ rest

unfoldable pub prune : ℕ → Throttle → Throttle
unfolding drop_stale
prune now t = if ltb (length t.ips) prune_size then t else record t { ips = drop_stale now t.ips }

abbrev pub key_of : Option String → String
key_of none = "unknown"
key_of (some ip) = if string_eq.beq ip "" then "unknown" else ip

-- Old failures of a quiet address decay after a day.
unfoldable pub decayed : ℕ → IpState → IpState
decayed now st =
    if leb st.locked_until now && ltb ip_entry_ttl_ms (now - st.last) then fresh now else st

unfoldable pub charged_ip : ℕ → IpState → IpState
unfolding backoff
charged_ip now st = record {
  fails = st.fails + 1;
  locked_until =
      if ltb ip_threshold (st.fails + 1)
      then now + backoff (st.fails + 1) ip_threshold ip_base_ms ip_max_ms
      else st.locked_until;
  last = now;
}

unfoldable pub charged_lock : ℕ → AuthLock → AuthLock
unfolding backoff
charged_lock now lock = record {
  failed_logins = lock.failed_logins + 1;
  locked_until =
      if ltb global_threshold (lock.failed_logins + 1)
      then some
          (now + backoff (lock.failed_logins + 1) global_threshold global_base_ms global_max_ms)
      else lock.locked_until;
}

-- The last four statements of `begin`.
unfoldable pub charge_ip : String → Bool → ℕ → IpState → Throttle → Result Attempt × Throttle
unfolding charged_ip
charge_ip key global now st t = (
  ok (record { ip = key; global = global }),
  record t { ips = JsMap.set key (charged_ip now st) t.ips },
)

-- The `if (opts.global)` block, and what follows it.
unfoldable pub charge_account :
    String → Bool → ℕ → IpState → Option AuthLock → Throttle → Result Attempt × Throttle
unfolding charge_ip charged_lock
charge_account key false now st l t = charge_ip key false now st t
charge_account key true now st none t = charge_ip key true now st t
charge_account key true now st (some lock) t =
    if ltb now (until lock.locked_until)
    then (err (Errors.rate_limited (until lock.locked_until - now)), t)
    else charge_ip key true now st (record t { lock = some (charged_lock now lock) })

-- The entry that `begin` works on.
unfoldable pub entry : String → ℕ → Throttle → IpState
unfolding decayed
entry key now t = decayed now (or_else (JsMap.get key t.ips) (fresh now))

unfoldable pub begin_key : String → Bool → ℕ → Throttle → Result Attempt × Throttle
unfolding entry charge_account
begin_key key global now t =
    let st = entry key now t in
    if ltb now st.locked_until
    then (err (Errors.rate_limited (st.locked_until - now)), t)
    else charge_account key global now st t.lock t

-- `begin`
unfoldable pub begin : Option String → Bool → ℕ → Throttle → Result Attempt × Throttle
unfolding prune begin_key
begin ip global now t = begin_key (key_of ip) global now (prune now t)

abbrev pub cleared : AuthLock
cleared = record { failed_logins = 0; locked_until = none }

-- `updateAuthLock` on a store with no row does nothing.
unfoldable pub success : Attempt → Throttle → Throttle
success a t = record {
  ips = JsMap.delete a.ip t.ips;
  lock = if a.global then elim t.lock [ none ↦ none | some l ↦ some cleared ] else t.lock;
}
