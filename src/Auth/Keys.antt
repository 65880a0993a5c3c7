-- ===== src/Auth/Keys.antt =====
-- server/src/crypto/password.ts and the sealing of server/src/crypto/keyring.ts: what passwords and recovery keys
-- derive, and secrets that only the owner can open. The queue of `scrypt` is left out.
pub mod Sealed
use wa_logger.Base.{
  ℕ, ◌+◌, ◌-◌, ◌*◌, ◌/◌, ◌%◌, ◌^◌, Bool, true, false, not, ◌&&◌, ◌||◌, Option, none, some, List, [],
  ◌∷◌, ◌++◌, ◌==◌, ltb, leb, if◌then◌else◌, length, take, drop, any, all,
}
use wa_logger.Base.Text.{Text, codes, text_beq, starts_with, is_space}
use wa_logger.Crypto.Gcm.{Buffer, open_gcm}
use wa_logger.Auth.Sessions.{Kit}

pub record DerivedKeys : Type 0 where
  pub auth_hash : Buffer
  pub kek : Buffer

abbrev pub password_min : ℕ
password_min = 12

abbrev pub password_max : ℕ
password_max = 256

abbrev pub recovery_key_bytes : ℕ
recovery_key_bytes = 32

-- `COMMON_PASSWORDS`
abbrev pub common_passwords : List Text
common_passwords =
    codes "password1234"
    ∷ codes "password12345"
    ∷ codes "password123456"
    ∷ codes "123456789012"
    ∷ codes "1234567890123"
    ∷ codes "qwertyuiopas"
    ∷ codes "qwerty123456"
    ∷ codes "iloveyou1234"
    ∷ codes "letmein12345"
    ∷ codes "administrator"
    ∷ codes "passw0rd1234"
    ∷ codes "whatsapp1234"
    ∷ codes "welcome12345"
    ∷ codes "changeme1234"
    ∷ codes "aaaaaaaaaaaa"
    ∷ codes "111111111111"
    ∷ codes "000000000000"
    ∷ codes "abcdefghijkl"
    ∷ codes "abc123abc123"
    ∷ codes "trustno11234"
    ∷ []

-- The code points of a text, as its iterator gives them: a high and a low surrogate are one.
abbrev is_pair : ℕ → ℕ → Bool
is_pair a b = (leb 55296 a && leb a 56319) && (leb 56320 b && leb b 57343)

abbrev point_from : ℕ → Text → List ℕ
point_from a [] = a ∷ []
point_from a (b ∷ s) =
    let joined = point_from (65536 + (a - 55296) * 1024 + (b - 56320)) s in
    let apart = point_from b s in if is_pair a b then joined else a ∷ apart

unfoldable pub points : Text → List ℕ
points [] = []
points (a ∷ s) = point_from a s

-- `includes`
abbrev pub includes : Text → Text → Bool
includes part [] = starts_with part []
includes part (c ∷ s) = starts_with part (c ∷ s) || includes part s

-- `new Set(s).size`
abbrev pub distinct : List ℕ → ℕ
distinct [] = 0
distinct (c ∷ s) = if any (λ d. c == d) s then distinct s else 1 + distinct s

-- `B32`
abbrev pub crockford : Text
crockford = codes "0123456789ABCDEFGHJKMNPQRSTVWXYZ"

-- `indexOf`, counted from `i`; `none` is -1.
abbrev pub index_of : ℕ → ℕ → Text → Option ℕ
index_of i c [] = none
index_of i c (d ∷ s) = let rest = index_of (i + 1) c s in if d == c then some i else rest

-- `base32Decode`: the loop, with numbers of 32 bits. `none` is null.
unfoldable pub decode_from : (bits value : ℕ) → Text → Option Buffer
decode_from bits value [] = some []
decode_from bits value (c ∷ s) = elim (index_of 0 c crockford) [
  | none ↦ none
  | some idx ↦
      let v = (value * 32 + idx) % 4294967296 in
      let more = decode_from (bits + 5) v s in
      let emptied = decode_from (bits - 3) v s in
      if leb 8 (bits + 5)
      then elim emptied [ none ↦ none | some out ↦ some ((v / 2 ^ (bits - 3) % 256) ∷ out) ]
      else more
]

unfoldable pub base32_decode : Text → Option Buffer
base32_decode s = decode_from 0 0 s

-- The last three `replace` of `parseRecoveryKey`
abbrev pub cleaned : Text → Text
cleaned [] = []
cleaned (c ∷ s) =
    let rest = cleaned s in
    if is_space c || c == 45
    then rest
    else (if c == 79 then 48 else if c == 73 || c == 76 then 49 else c) ∷ rest

module _ (k : Kit) where
  -- `derivePasswordKeys`
  unfoldable pub derive_password_keys : Text → Buffer → DerivedKeys
  derive_password_keys password salt =
      let master = k.scrypt (k.nfkc password) salt in
      record {
        auth_hash = k.hkdf master salt (codes "wal/v1/auth");
        kek = k.hkdf master salt (codes "wal/v1/kek");
      }

  -- `deriveRecoveryKeys`
  unfoldable pub derive_recovery_keys : Buffer → Buffer → DerivedKeys
  derive_recovery_keys bytes salt = record {
    auth_hash = k.hkdf bytes salt (codes "wal/v1/recovery-auth");
    kek = k.hkdf bytes salt (codes "wal/v1/recovery-kek");
  }

  -- `passwordPolicyError`: whether there is a reason to refuse
  unfoldable pub password_policy_error : Text → Text → Bool
  unfolding points
  password_policy_error password username =
      let pw = k.nfkc password in
      let low = k.to_lower pw in
      ltb (length (points pw)) password_min
      || (ltb password_max (length pw)
          || ((includes (k.to_lower username) low && leb 3 (length username))
              || (any (λ c. text_beq c low) common_passwords || ltb (distinct (points low)) 5)))

  -- `parseRecoveryKey`; `none` is null.
  unfoldable pub parse_recovery_key : Text → Option Buffer
  unfolding base32_decode
  parse_recovery_key input =
      let text = cleaned (k.to_upper input) in
      if length text == 52
      then elim (base32_decode text) [
        | none ↦ none
        | some bytes ↦ if length bytes == recovery_key_bytes then some bytes else none
      ]
      else none

  -- `x25519Shared`; `none` is a throw.
  unfoldable pub x25519_shared : Buffer → Buffer → Option Buffer
  x25519_shared private_key public_key =
      let shared = k.diffie_hellman private_key public_key in
      if (length public_key == 32) && not (all (λ b. b == 0) shared) then some shared else none

  -- The key of `sealToPublicKey` and `openSealed`
  abbrev pub seal_key : Buffer → Buffer → Buffer → Text → Buffer
  seal_key shared eph_pub owner_pub context =
      k.hkdf shared (eph_pub ++ owner_pub) (codes "wal/v1/seal/" ++ context)

  -- `sealToPublicKey`, with the pair and the nonce that it draws; `none` is a throw. The key has 32 bytes.
  unfoldable pub seal_to_public_key :
      Buffer → Buffer → Text → (eph_private eph_public nonce : Buffer) → Option Buffer
  unfolding x25519_shared
  seal_to_public_key owner_pub plaintext context eph_private eph_public nonce =
      elim (x25519_shared eph_private owner_pub) [
        | none ↦ none
        | some shared ↦ some (
            eph_public
            ++ (nonce
                ++ k.cipher.encrypt (seal_key shared eph_public owner_pub context) nonce
                    (codes "wal/v1|seal|" ++ context) plaintext))
      ]

  -- `openSealed`; `none` is a throw.
  unfoldable pub open_sealed : Buffer → Buffer → Text → Option Buffer
  unfolding x25519_shared
  open_sealed owner_private blob context =
      if ltb (length blob) 60 then none else elim (k.public_of owner_private) [
        | none ↦ none
        | some owner_pub ↦ elim (x25519_shared owner_private (take 32 blob)) [
          | none ↦ none
          | some shared ↦
              open_gcm k.cipher (seal_key shared (take 32 blob) owner_pub context) (drop 32 blob)
                (codes "wal/v1|seal|" ++ context)
        ]
      ]
