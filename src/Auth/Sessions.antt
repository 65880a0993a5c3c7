-- ===== src/Auth/Sessions.antt =====
-- server/src/auth/sessions.ts: sessions and their cookies. Functions of node:crypto and the base64url of Buffer are
-- parameters; random values are arguments.
pub mod Expiry
pub mod Cookies
use wa_logger.Base.{
  ℕ, ◌+◌, ◌-◌, ◌≡◌, String, Bool, true, false, ◌&&◌, ◌||◌, Option, none, some, List, [], ◌∷◌, ◌++◌,
  ◌==◌, ltb, leb, if◌then◌else◌, length, take, drop,
}
use wa_logger.Base.Text.{Text, codes, all_chars, text_beq}
use wa_logger.Crypto.Gcm.{Cipher, Buffer, open_gcm}
use wa_logger.Auth.Store.{
  SessionRow, Repo, insert_session, get_session, delete_session, touch_session,
}

-- What Node gives: AES-GCM, HKDF (`len` is 32), SHA-256, scrypt, HMAC-SHA1, X25519 (`public_of` is `none` for what is
-- no private key), base64url, and the methods of `String` that go by the tables of Unicode.
pub record Kit : Type 0 where
  pub cipher : Cipher
  pub hkdf : (ikm salt : Buffer) → Text → Buffer
  pub sha256 : Buffer → Buffer
  pub scrypt : Text → Buffer → Buffer
  pub hmac_sha1 : Buffer → Buffer → Buffer
  pub diffie_hellman : (private_key public_key : Buffer) → Buffer
  pub public_of : Buffer → Option Buffer
  pub nfkc : Text → Text
  pub to_lower : Text → Text
  pub to_upper : Text → Text
  pub to_base64url : Buffer → Text
  pub from_base64url : Text → Buffer

pub record SessionConfig : Type 0 where
  pub session_idle_ms : ℕ
  pub session_max_ms : ℕ

pub record ActiveSession : Type 0 where
  pub id_hash : Buffer
  pub secret : Buffer
  pub row : SessionRow

abbrev pub touch_interval_ms : ℕ
touch_interval_ms = 60_000

-- `PRIVKEY_AAD` of server/src/crypto/keyring.ts
abbrev pub aad_password : Buffer
aad_password = codes "wal/v1|privkey|password"

abbrev pub aad_recovery : Buffer
aad_recovery = codes "wal/v1|privkey|recovery"

abbrev pub aad_session : Buffer
aad_session = codes "wal/v1|privkey|session"

-- The sessions that `loadSession` throws away.
abbrev pub is_over : SessionConfig → ℕ → SessionRow → Bool
is_over cfg now row = leb row.expires_at now || leb (row.last_seen_at + cfg.session_idle_ms) now

-- `[A-Za-z0-9_-]`
abbrev pub is_base64url : ℕ → Bool
is_base64url c =
    (leb 65 c && leb c 90)
    || ((leb 97 c && leb c 122) || ((leb 48 c && leb c 57) || (c == 95 || c == 45)))

-- The match of `/^([A-Za-z0-9_-]{43})\.([A-Za-z0-9_-]{43})$/`
unfoldable pub is_part : Text → Bool
is_part s = (length s == 43) && all_chars is_base64url s

-- `meta.userAgent ? meta.userAgent.slice(0, 300) : null`
abbrev pub cut_agent : Option Text → Option Text
cut_agent none = none
cut_agent (some []) = none
cut_agent (some (c ∷ s)) = some (take 300 (c ∷ s))

module _ (k : Kit) where
  -- `wrapPrivateKey` of server/src/crypto/keyring.ts. Its keys come from HKDF and have 32 bytes, so the test of
  -- `sealGcm` for their length does not fail.
  unfoldable pub wrap_private_key : Buffer → Buffer → Buffer → Buffer → Buffer
  wrap_private_key kek private_pkcs8 aad nonce =
      nonce ++ k.cipher.encrypt kek nonce aad private_pkcs8

  -- `unwrapPrivateKey`; `none` is a throw.
  unfoldable pub unwrap_private_key : Buffer → Buffer → Buffer → Option Buffer
  unwrap_private_key kek sealed aad = open_gcm k.cipher kek sealed aad

  -- `sessionKey`
  abbrev pub session_key : Buffer → Buffer
  session_key secret = k.hkdf secret [] (codes "wal/v1/session")

  -- `createSession`: the value of the cookie, and the store
  unfoldable pub create_session :
      SessionConfig
      → (private_pkcs8 : Buffer) → Option String
      → Option Text
      → (now : ℕ) → (sid secret nonce : Buffer) → Repo
      → Text × Repo
  create_session cfg private_pkcs8 ip agent now sid secret nonce r = (
    k.to_base64url sid ++ (46 ∷ k.to_base64url secret),
    insert_session
        (record {
          id_hash = k.sha256 (sid ++ secret);
          privkey_enc = wrap_private_key (session_key secret) private_pkcs8 aad_session nonce;
          created_at = now;
          last_seen_at = now;
          expires_at = now + cfg.session_max_ms;
          ip = ip;
          user_agent = cut_agent agent;
        })
        r,
  )

  -- `parseCookieValue`; `none` is null. A text longer than 120 matches no more than any other than 87.
  unfoldable pub parse_cookie_value : Text → Option (Buffer × Buffer)
  unfolding is_part
  parse_cookie_value value =
      let first = take 43 value in
      let second = drop 44 value in
      let sid = k.from_base64url first in
      let secret = k.from_base64url second in
      if ltb 120 (length value)
      then none
      else if is_part first && (text_beq (take 1 (drop 43 value)) (46 ∷ []) && is_part second)
      then if (length sid == 32) && (length secret == 32) then some (sid, secret) else none
      else none

  -- `loadSession` from the row on
  unfoldable pub load_row :
      SessionConfig
      → Option String
      → ℕ
      → Buffer
      → Buffer
      → SessionRow
      → Repo
      → Option ActiveSession × Repo
  load_row cfg ip now id_hash secret row r =
      if is_over cfg now row
      then (none, delete_session id_hash r)
      else if ltb touch_interval_ms (now - row.last_seen_at)
      then (
        some (record {
          id_hash = id_hash;
          secret = secret;
          row = record row { last_seen_at = now };
        }),
        touch_session id_hash now ip r,
      )
      else (some (record { id_hash = id_hash; secret = secret; row = row }), r)

  -- `loadSession`
  unfoldable pub load_session :
      SessionConfig → Text → Option String → ℕ → Repo → Option ActiveSession × Repo
  unfolding load_row
  load_session cfg value ip now r = elim (parse_cookie_value value) [
    | none ↦ (none, r)
    | some p ↦
        let id_hash = k.sha256 (p.0 ++ p.1) in
        elim (get_session id_hash r) [
          | none ↦ (none, r)
          | some row ↦ load_row cfg ip now id_hash p.1 row r
        ]
  ]

  -- `sessionPrivateKey`; `none` is a throw.
  unfoldable pub session_private_key : ActiveSession → Option Buffer
  unfolding unwrap_private_key
  session_private_key s = unwrap_private_key (session_key s.secret) s.row.privkey_enc aad_session
