-- ===== src/Auth/Tests.antt =====
-- Runs of signing in with toy ciphers, and the theorems at them.
use wa_logger.Base.{
  ℕ, ◌-◌, ◌≡◌, ◌≤◌, ◌↔◌, refl, ap, true, [], ◌∷◌, ◌++◌, arith, none, some, length, take, replicate,
  length-append, length-take, take-append_length,
}
use wa_logger.Base.Text.{Text, codes, lower}
use wa_logger.Crypto.Gcm.{Buffer, Cipher, IsGcm}
use wa_logger.Auth.Totp.{verify_totp, hotp, current_step, drop_spaces, is_code}
use wa_logger.Auth.Totp.Window.{IsMatch, IsUnused, verify_totp_lem}
use wa_logger.Auth.Store.{Repo, SessionRow, audit, get_session}
use wa_logger.Auth.Store.Audits.{IsDescending, audit-IsDescending}
use wa_logger.Auth.Sessions.{
  Kit, SessionConfig, ActiveSession, create_session, load_session, session_private_key,
  parse_cookie_value, is_part, load_row,
}
use wa_logger.Auth.Sessions.Expiry.{IsLive, load_session-IsLive}
use wa_logger.Auth.Sessions.Cookies.{IsEncoded, IsKit, load_session-create_session}
use wa_logger.Auth.Keys.{seal_to_public_key, open_sealed}
use wa_logger.Auth.Keys.Sealed.{open_sealed-seal_to_public_key}

abbrev zeros : ℕ → Buffer
zeros n = replicate n 0

abbrev toy : Cipher
toy = record {
  encrypt = λ key nonce aad plain. plain ++ zeros 16;
  decrypt = λ key nonce aad sealed. some (take (length sealed - 16) sealed);
}

pub toy-IsGcm : IsGcm toy
toy-IsGcm = record {
  decrypt-encrypt = λ key nonce aad plain. ap some (
      take-append_length (length (plain ++ zeros 16) - 16) plain (zeros 16)
        (omega (arith, length-append plain (zeros 16))));
  length-encrypt = λ key nonce aad plain. length-append plain (zeros 16);
}

-- The codes are the bytes from the third of the message on.
abbrev mac : Buffer → Buffer → Buffer
mac secret message = message ++ (9 ∷ 4 ∷ [])

abbrev pub kit : Kit
kit = record {
  cipher = toy;
  hkdf = λ ikm salt info. take 32 (ikm ++ zeros 32);
  sha256 = λ b. b;
  scrypt = λ password salt. password;
  hmac_sha1 = mac;
  diffie_hellman = λ private_key public_key. replicate 32 1;
  public_of = λ private_key. some (replicate 32 2);
  nfkc = λ s. s;
  to_lower = lower;
  to_upper = λ s. s;
  to_base64url = λ b. b ++ replicate 11 65;
  from_base64url = λ s. take 32 s;
}

pub hkdf_size : (ikm salt : Buffer) (info : Text) → length (kit.hkdf ikm salt info) ≡ 32
hkdf_size ikm salt info =
    omega (arith, length-take 32 (ikm ++ zeros 32), length-append ikm (zeros 32))

verify_totp_lem_example : (verify_totp mac [] (codes "000 002") (some 1) 60000 ≡ some 2) ↔ (
    (is_code (drop_spaces (codes "000 002")) ≡ true)
    × IsMatch (hotp mac []) (drop_spaces (codes "000 002")) (current_step 60000) 2
    × IsUnused (some 1) 2)
unfolding current_step
verify_totp_lem_example = verify_totp_lem mac [] (codes "000 002") (some 1) 60000 2 (omega arith)

abbrev pub cfg : SessionConfig
cfg = record { session_idle_ms = 1000; session_max_ms = 5000 }

abbrev pub empty : Repo
empty = record { owner = none; pending_claim = none; sessions = []; audits = [] }

audit-IsDescending_example :
    IsDescending (audit "login" none 5 empty).audits
    × (length (audit "login" none 5 empty).audits ≤ 5000)
audit-IsDescending_example = audit-IsDescending "login" none 5 empty tt

abbrev pub sid : Buffer
sid = replicate 32 66

abbrev pub secret : Buffer
secret = replicate 32 67

abbrev pub nonce : Buffer
nonce = replicate 12 3

sid-IsEncoded : IsEncoded kit sid
sid-IsEncoded = record { size = refl; chars = refl; alphabet = refl; decodes = refl }

secret-IsEncoded : IsEncoded kit secret
secret-IsEncoded = record { size = refl; chars = refl; alphabet = refl; decodes = refl }

kit-IsKit : IsKit kit sid secret nonce
kit-IsKit = record {
  gcm = toy-IsGcm;
  key = refl;
  nonce_size = refl;
  sid_text = sid-IsEncoded;
  secret_text = secret-IsEncoded;
}

load_session-create_session_example :
    let made = create_session kit cfg (1 ∷ 2 ∷ []) none none 100 sid secret nonce empty in
    (s : ActiveSession) × ((load_session kit cfg made.0 none 900 made.1).0 ≡ some s)
    × (session_private_key kit s ≡ some (1 ∷ 2 ∷ []))
load_session-create_session_example =
    load_session-create_session kit cfg (1 ∷ 2 ∷ []) none none none 100 900 sid secret nonce empty
      kit-IsKit (omega arith) (omega arith) (omega arith)

abbrev cookie : Text
cookie = kit.to_base64url sid ++ (46 ∷ kit.to_base64url secret)

abbrev row : SessionRow
row = record {
  id_hash = sid ++ secret;
  privkey_enc = [];
  created_at = 0;
  last_seen_at = 500;
  expires_at = 5000;
  ip = none;
  user_agent = none;
}

abbrev one_session : Repo
one_session = record empty { sessions = row ∷ [] }

abbrev active : ActiveSession
active = record { id_hash = sid ++ secret; secret = secret; row = row }

load_session-IsLive_example :
    (parts : Buffer × Buffer) × (parse_cookie_value kit cookie ≡ some parts)
    × (IsLive cfg 900 one_session active
        × (active.id_hash ≡ kit.sha256 (parts.0 ++ parts.1))
        × (active.secret ≡ parts.1))
unfolding load_session load_row parse_cookie_value is_part get_session
load_session-IsLive_example = load_session-IsLive kit cfg cookie none 900 one_session active refl

open_sealed-seal_to_public_key_example :
    open_sealed kit [] (replicate 32 5 ++ (nonce ++ ((7 ∷ []) ++ zeros 16))) (codes "totp")
    ≡ some (7 ∷ [])
unfolding seal_to_public_key
open_sealed-seal_to_public_key_example =
    open_sealed-seal_to_public_key kit [] (replicate 32 2) [] (replicate 32 5) nonce (7 ∷ [])
      (replicate 32 5 ++ (nonce ++ ((7 ∷ []) ++ zeros 16))) (codes "totp") toy-IsGcm
      (record { public_key = refl; agrees = refl; owner_size = refl; eph_size = refl }) refl
      hkdf_size refl
