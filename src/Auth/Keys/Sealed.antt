-- ===== src/Auth/Keys/Sealed.antt =====
-- What is sealed to a public key opens with its private key.
use wa_logger.Base.{
  ◌≡◌, ◌∙◌, some, ◌++◌, length, arith, length-append, take, drop, take-append_length,
  drop-append_length, Option-cases, inl, inr, refl, false, ltb, ◌≤◌,
}
use mathlib.Core.Path.{subst}
use wa_logger.Base.Text.{Text, codes}
use wa_logger.Crypto.Gcm.{Buffer, IsGcm, open_gcm, open_gcm-nonce}
use wa_logger.Auth.Sessions.{Kit}
use wa_logger.Auth.Keys.{x25519_shared, seal_key, seal_to_public_key, open_sealed}

module _ (k : Kit) where
  -- What is documented of X25519, for the two pairs: both sides compute the same shared secret, and keys have 32 bytes.
  pub record IsPaired (owner_private owner_public eph_private eph_public : Buffer) : Type 0 where
    pub public_key : k.public_of owner_private ≡ some owner_public
    pub agrees :
        k.diffie_hellman owner_private eph_public ≡ k.diffie_hellman eph_private owner_public
    pub owner_size : length owner_public ≡ 32
    pub eph_size : length eph_public ≡ 32

  shared_agrees :
      (owner_private owner_public eph_private eph_public : Buffer)
      → IsPaired owner_private owner_public eph_private eph_public
      → x25519_shared k owner_private eph_public ≡ x25519_shared k eph_private owner_public
  unfolding x25519_shared
  shared_agrees owner_private owner_public eph_private eph_public is =
      rw (is.agrees, is.owner_size, is.eph_size) refl

  -- What was sealed to the owner's public key, the owner's private key opens, in the same context.
  pub open_sealed-seal_to_public_key :
      (owner_private owner_public eph_private eph_public nonce plaintext blob : Buffer)
      (context : Text)
      → IsGcm k.cipher
      → IsPaired owner_private owner_public eph_private eph_public
      → length nonce ≡ 12
      → ((ikm salt : Buffer) (info : Text) → length (k.hkdf ikm salt info) ≡ 32)
      → seal_to_public_key k owner_public plaintext context eph_private eph_public nonce ≡ some blob
      → open_sealed k owner_private blob context ≡ some plaintext
  unfolding seal_to_public_key open_sealed
  open_sealed-seal_to_public_key owner_private owner_public eph_private eph_public nonce plaintext
        blob context gcm is n size h =
      elim (Option-cases (x25519_shared k eph_private owner_public)) [
        | inl weak ↦ absurd (ground (arith, h, weak))
        | inr shared ↦
            let key = seal_key k shared.0 eph_public owner_public context in
            let aad = codes "wal/v1|seal|" ++ context in
            let sealed = nonce ++ k.cipher.encrypt key nonce aad plaintext in
            let e : eph_public ++ sealed ≡ blob = ground (arith, h, shared.1) in
            subst (λ b. open_sealed k owner_private b context ≡ some plaintext) e
              (opened sealed shared.0
                (shared_agrees owner_private owner_public eph_private eph_public is ∙ shared.1)
                (omega (
                  arith,
                  n,
                  length-append nonce (k.cipher.encrypt key nonce aad plaintext),
                  gcm.length-encrypt key nonce aad plaintext,
                ))
                (open_gcm-nonce k.cipher key nonce aad plaintext gcm
                  (size shared.0 (eph_public ++ owner_public) (codes "wal/v1/seal/" ++ context)) n))
      ]
    where
      opened :
          (sealed shared : Buffer)
          → x25519_shared k owner_private eph_public ≡ some shared
          → 28 ≤ length sealed
          → open_gcm k.cipher
              (seal_key k shared eph_public owner_public context)
              sealed
              (codes "wal/v1|seal|" ++ context)
            ≡ some plaintext
          → open_sealed k owner_private (eph_public ++ sealed) context ≡ some plaintext
      opened sealed shared s l g =
          let t : take 32 (eph_public ++ sealed) ≡ eph_public =
            take-append_length 32 eph_public sealed (omega (arith, is.eph_size)) in
          let r : drop 32 (eph_public ++ sealed) ≡ sealed =
            drop-append_length 32 eph_public sealed (omega (arith, is.eph_size)) in
          let long : ltb (length (eph_public ++ sealed)) 60 ≡ false =
            ground (arith, length-append eph_public sealed, is.eph_size, l) in
          rw (open_sealed, long, is.public_key, t, s, t, r) g
