-- ===== src/Auth/Store.antt =====
-- server/src/db/repo.ts: the rows that signing in reads and writes. Tables of one row are options. SQLite has no two
-- sessions of one id; ids are hashes of 64 random bytes. `scrub`, which only shortens files, is left out.
pub mod Audits
use wa_logger.Base.{
  ℕ, ◌+◌, ◌-◌, ◌≡◌, String, Bool, true, false, not, Option, none, some, List, [], ◌∷◌, ltb, leb,
  if◌then◌else◌, length, take, ◌||◌,
}
use wa_logger.Base.Text.{Text, text_beq}
use wa_logger.Crypto.Gcm.{Buffer}
use wa_logger.Crypto.Bytes.{hex}
use wa_logger.Auth.Throttle.{AuthLock, cleared}

-- `lock` are the columns `failed_logins` and `locked_until`.
pub record OwnerRow : Type 0 where
  pub username : Text
  pub pw_salt : Buffer
  pub pw_auth_hash : Buffer
  pub public_key : Buffer
  pub privkey_pw : Buffer
  pub privkey_recovery : Buffer
  pub recovery_salt : Buffer
  pub recovery_auth_hash : Buffer
  pub totp_secret_enc : Option Buffer
  pub totp_enabled : Bool
  pub totp_last_step : Option ℕ
  pub lock : AuthLock
  pub created_at : ℕ
  pub password_changed_at : ℕ

pub data Mode : Type 0 where
  new reset : Mode

pub record PendingClaimRow : Type 0 where
  pub username : Text
  pub mode : Mode
  pub salt : Buffer
  pub auth_hash : Buffer
  pub lock : AuthLock
  pub created_at : ℕ

pub record SessionRow : Type 0 where
  pub id_hash : Buffer
  pub privkey_enc : Buffer
  pub created_at : ℕ
  pub last_seen_at : ℕ
  pub expires_at : ℕ
  pub ip : Option String
  pub user_agent : Option Text

pub record AuditRow : Type 0 where
  pub id : ℕ
  pub ts : ℕ
  pub event : String
  pub ip : Option String

-- The newest audit entry comes first.
pub record Repo : Type 0 where
  pub owner : Option OwnerRow
  pub pending_claim : Option PendingClaimRow
  pub sessions : List SessionRow
  pub audits : List AuditRow

-- `updateOwner`: without an owner no row changes.
abbrev pub update_owner : (OwnerRow → OwnerRow) → Repo → Repo
update_owner f r = record r { owner = elim r.owner [ none ↦ none | some o ↦ some (f o) ] }

-- `createOwner`: `false` when there is an owner.
unfoldable pub create_owner : OwnerRow → Repo → Bool × Repo
create_owner row r = elim r.owner [
  | none ↦ (true, record r { owner = some row })
  | some o ↦ (false, r)
]

-- `setPendingClaim`
unfoldable pub set_pending_claim : Text → Mode → Buffer → Buffer → ℕ → Repo → Repo
set_pending_claim username mode salt auth_hash now r = record r {
  pending_claim = some (record {
    username = username;
    mode = mode;
    salt = salt;
    auth_hash = auth_hash;
    lock = cleared;
    created_at = now;
  });
}

-- `deletePendingClaim`
abbrev pub delete_pending_claim : Repo → Repo
delete_pending_claim r = record r { pending_claim = none }

-- `getAuthLock`
unfoldable pub get_auth_lock : Repo → Option AuthLock
get_auth_lock r = elim r.pending_claim [
  | some p ↦ some p.lock
  | none ↦ elim r.owner [ none ↦ none | some o ↦ some o.lock ]
]

-- `updateAuthLock`
unfoldable pub update_auth_lock : AuthLock → Repo → Repo
update_auth_lock l r = elim r.pending_claim [
  | some p ↦ record r { pending_claim = some (record p { lock = l }) }
  | none ↦ update_owner (λ o. record o { lock = l }) r
]

abbrev pub is_later : Option ℕ → ℕ → Bool
is_later none step = true
is_later (some last) step = ltb last step

-- `consumeTotpStep`
unfoldable pub consume_totp_step : ℕ → Repo → Bool × Repo
consume_totp_step step r = elim r.owner [
  | none ↦ (false, r)
  | some o ↦
      if is_later o.totp_last_step step
      then (true, record r { owner = some (record o { totp_last_step = some step }) })
      else (false, r)
]

-- `insertSession`
abbrev pub insert_session : SessionRow → Repo → Repo
insert_session s r = record r { sessions = s ∷ r.sessions }

abbrev pub find_session : Buffer → List SessionRow → Option SessionRow
find_session id [] = none
find_session id (s ∷ ss) =
    let rest = find_session id ss in if text_beq s.id_hash id then some s else rest

-- `getSession`
unfoldable pub get_session : Buffer → Repo → Option SessionRow
get_session id r = find_session id r.sessions

abbrev touched : Buffer → ℕ → Option String → List SessionRow → List SessionRow
touched id at ip [] = []
touched id at ip (s ∷ ss) =
    (if text_beq s.id_hash id then record s { last_seen_at = at; ip = ip } else s)
    ∷ touched id at ip ss

-- `touchSession`
unfoldable pub touch_session : Buffer → ℕ → Option String → Repo → Repo
touch_session id at ip r = record r { sessions = touched id at ip r.sessions }

-- The sessions that a `DELETE` leaves.
abbrev pub keep_sessions : (SessionRow → Bool) → List SessionRow → List SessionRow
keep_sessions p [] = []
keep_sessions p (s ∷ ss) = let rest = keep_sessions p ss in if p s then s ∷ rest else rest

-- `deleteSession`
unfoldable pub delete_session : Buffer → Repo → Repo
delete_session id r = record r {
  sessions = keep_sessions (λ s. not (text_beq s.id_hash id)) r.sessions;
}

-- `publicSessionId` of server/src/auth/sessions.ts
abbrev pub public_session_id : Buffer → Text
public_session_id id = take 16 (hex id)

-- `deleteSessionByPrefix`, with the number of rows that are gone
unfoldable pub delete_session_by_prefix : Text → Repo → ℕ × Repo
delete_session_by_prefix prefix r =
    let left =
      keep_sessions (λ s. not (text_beq (public_session_id s.id_hash) prefix)) r.sessions in
    (length r.sessions - length left, record r { sessions = left })

-- `deleteAllSessions`
unfoldable pub delete_all_sessions : Option Buffer → Repo → Repo
delete_all_sessions none r = record r { sessions = [] }
delete_all_sessions (some id) r = record r {
  sessions = keep_sessions (λ s. text_beq s.id_hash id) r.sessions;
}

-- `deleteExpiredSessions`: `last_seen_at <= now - idleMs`, of numbers that may be below 0
unfoldable pub delete_expired_sessions : ℕ → ℕ → Repo → Repo
delete_expired_sessions now idle_ms r = record r {
  sessions =
      keep_sessions (λ s. not (leb s.expires_at now || leb (s.last_seen_at + idle_ms) now))
        r.sessions;
}

abbrev pub top_id : List AuditRow → ℕ
top_id [] = 0
top_id (a ∷ rest) = a.id

abbrev keep_audits : (AuditRow → Bool) → List AuditRow → List AuditRow
keep_audits p [] = []
keep_audits p (a ∷ rest) = let kept = keep_audits p rest in if p a then a ∷ kept else kept

-- `audit`: SQLite gives the id after the largest, and the entries 5000 ids behind it go.
unfoldable pub audit : String → Option String → ℕ → Repo → Repo
audit event ip ts r =
    let id = top_id r.audits + 1 in
    let row : AuditRow = record { id = id; ts = ts; event = event; ip = ip } in
    record r { audits = keep_audits (λ a. ltb id (a.id + 5000)) (row ∷ r.audits) }
