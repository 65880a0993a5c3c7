-- ===== src/Crypto/Gcm.antt =====
-- `sealGcm` and `openGcm` of server/src/crypto/primitives.ts over Node's AES-256-GCM, which is a
-- parameter. Bytes are numbers.
use wa_logger.Base.{
  ℕ, ◌+◌, ◌≡◌, Option, none, some, List, ◌++◌, ltb, ◌==◌, if◌then◌else◌, length, take, drop, arith,
  drop-append_length, take-append_length, length-append,
}

abbrev pub Buffer : Type 0
Buffer = List ℕ

abbrev pub key_len : ℕ
key_len = 32

abbrev pub nonce_len : ℕ
nonce_len = 12

abbrev pub tag_len : ℕ
tag_len = 16

-- Node's cipher with an authentication tag of 16 bytes behind the ciphertext.
pub record Cipher : Type 0 where
  pub encrypt : (key nonce aad plain : Buffer) → Buffer
  pub decrypt : (key nonce aad sealed : Buffer) → Option Buffer

-- What AES-GCM guarantees of it.
pub record IsGcm (c : Cipher) : Type 0 where
  pub decrypt-encrypt :
      (key nonce aad plain : Buffer)
      → c.decrypt key nonce aad (c.encrypt key nonce aad plain) ≡ some plain
  pub length-encrypt :
      (key nonce aad plain : Buffer) → length (c.encrypt key nonce aad plain) ≡ length plain + 16

module _ (c : Cipher) where
  -- `none` is a throw. The nonce is drawn at random by the callers that give none.
  unfoldable pub seal_gcm : Buffer → Buffer → Buffer → Buffer → Option Buffer
  seal_gcm key plain aad nonce =
      if length key == key_len then some (nonce ++ c.encrypt key nonce aad plain) else none

  unfoldable pub open_gcm : Buffer → Buffer → Buffer → Option Buffer
  open_gcm key sealed aad =
      if length key == key_len
      then if ltb (length sealed) (nonce_len + tag_len)
        then none
        else c.decrypt key (take nonce_len sealed) aad (drop nonce_len sealed)
      else none

  -- What was sealed under a nonce of 12 bytes opens, with the same key and context, to what it was.
  pub open_gcm-nonce :
      (key nonce aad plain : Buffer)
      → IsGcm c
      → length key ≡ 32
      → length nonce ≡ 12
      → open_gcm key (nonce ++ c.encrypt key nonce aad plain) aad ≡ some plain
  unfolding open_gcm
  open_gcm-nonce key nonce aad plain g k n =
      rw
        (
          take-append_length 12 nonce (c.encrypt key nonce aad plain) (omega (arith, n)),
          drop-append_length 12 nonce (c.encrypt key nonce aad plain) (omega (arith, n)),
        )
        (ground (
          arith,
          g.decrypt-encrypt key nonce aad plain,
          length-append nonce (c.encrypt key nonce aad plain),
          g.length-encrypt key nonce aad plain,
        ))
