-- ===== src/Auth/Sessions/Expiry.antt =====
-- Which sessions are accepted.
use wa_logger.Base.{
  ℕ, ◌+◌, ◌-◌, ltb, ◌<◌, ◌≡◌, String, true, not, Option, none, some, List, [], ◌∷◌, ◌++◌, arith,
  refl, Bool-cases, Option-cases, inl, inr,
}
use mathlib.Core.Path.{subst}
use wa_logger.Base.Text.{Text, text_beq}
use wa_logger.Crypto.Gcm.{Buffer}
use wa_logger.Auth.Store.{
  SessionRow, Repo, get_session, delete_session, find_session, keep_sessions,
}
use wa_logger.Auth.Sessions.{
  Kit, SessionConfig, ActiveSession, parse_cookie_value, is_over, load_row, load_session,
  touch_interval_ms,
}

find_session-keep :
    (id : Buffer) (l : List SessionRow)
    → find_session id (keep_sessions (λ s. not (text_beq s.id_hash id)) l) ≡ none
find_session-keep id [] = refl
find_session-keep id (s ∷ ss) = elim (Bool-cases (text_beq s.id_hash id)) [
  | inl is ↦ rw is (find_session-keep id ss)
  | inr other ↦ rw (other, other) (find_session-keep id ss)
]

-- A session that `deleteSession` deleted is not found again.
pub get-delete_session : (id : Buffer) (r : Repo) → get_session id (delete_session id r) ≡ none
unfolding get_session delete_session
get-delete_session id r = find_session-keep id r.sessions

-- The store has a row for the session that is neither expired nor idle for too long, and what was accepted carries its
-- wrapped key.
abbrev pub IsLive : SessionConfig → ℕ → Repo → ActiveSession → Type 0
IsLive cfg now r s =
    (row : SessionRow) × (get_session s.id_hash r ≡ some row)
    × (now < row.expires_at)
    × (now < row.last_seen_at + cfg.session_idle_ms)
    × (s.row.privkey_enc ≡ row.privkey_enc)

module _ (k : Kit) (cfg : SessionConfig) where
  abbrev IsLiveAs : ℕ → Repo → Buffer → Buffer → ActiveSession → Type 0
  IsLiveAs now r id secret s = IsLive cfg now r s × (s.id_hash ≡ id) × (s.secret ≡ secret)

  load_row-IsLive :
      (ip : Option String) (now : ℕ) (id secret : Buffer) (row : SessionRow) (r : Repo)
      (s : ActiveSession)
      → get_session id r ≡ some row
      → (load_row k cfg ip now id secret row r).0 ≡ some s
      → IsLiveAs now r id secret s
  unfolding load_row
  load_row-IsLive ip now id secret row r s g h = elim (Bool-cases (is_over cfg now row)) [
    | inl over ↦ absurd (ground (arith, h, over))
    | inr live ↦
        let young : now < row.expires_at = ground (arith, live) in
        let seen : now < row.last_seen_at + cfg.session_idle_ms = ground (arith, live) in
        elim (Bool-cases (ltb touch_interval_ms (now - row.last_seen_at))) [
          | inl late ↦
              let a : ActiveSession = record {
                id_hash = id;
                secret = secret;
                row = record row { last_seen_at = now };
              } in
              let e : a ≡ s = ground (arith, h, live, late) in
              subst (IsLiveAs now r id secret) e ((row, g, young, seen, refl), refl, refl)
          | inr soon ↦
              let a : ActiveSession = record { id_hash = id; secret = secret; row = row } in
              let e : a ≡ s = ground (arith, h, live, soon) in
              subst (IsLiveAs now r id secret) e ((row, g, young, seen, refl), refl, refl)
        ]
  ]

  -- A session is accepted only when the cookie is well-formed, the store has a row for the hash of its two parts, and
  -- that row is neither expired nor idle for too long; what is accepted carries the row's wrapped key.
  pub load_session-IsLive :
      (value : Text) (ip : Option String) (now : ℕ) (r : Repo) (s : ActiveSession)
      → (load_session k cfg value ip now r).0 ≡ some s
      → (parts : Buffer × Buffer) × (parse_cookie_value k value ≡ some parts)
        × IsLiveAs now r (k.sha256 (parts.0 ++ parts.1)) parts.1 s
  unfolding load_session
  load_session-IsLive value ip now r s h = elim (Option-cases (parse_cookie_value k value)) [
    | inl bad ↦ absurd (ground (arith, h, bad))
    | inr good ↦
        let id = k.sha256 (good.0.0 ++ good.0.1) in
        elim (Option-cases (get_session id r)) [
          | inl missing ↦ absurd (ground (arith, h, good.1, missing))
          | inr found ↦ (
            good.0,
            good.1,
            load_row-IsLive ip now id good.0.1 found.0 r s found.1
                (ground (arith, h, good.1, found.1)),
          )
        ]
  ]

  -- A session that is expired or was idle for too long is refused, and its row is gone.
  load_session_over :
      (value : Text) (ip : Option String) (now : ℕ) (r : Repo) (parts : Buffer × Buffer)
      (row : SessionRow)
      → parse_cookie_value k value ≡ some parts
      → get_session (k.sha256 (parts.0 ++ parts.1)) r ≡ some row
      → is_over cfg now row ≡ true
      → ((load_session k cfg value ip now r).0 ≡ none)
        × (get_session (k.sha256 (parts.0 ++ parts.1)) (load_session k cfg value ip now r).1 ≡ none)
  unfolding load_session
  load_session_over value ip now r parts row p g o =
      rw (load_session, p, g, load_row, o)
        (refl, get-delete_session (k.sha256 (parts.0 ++ parts.1)) r)
