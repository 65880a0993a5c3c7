-- ===== src/Crypto.antt =====
-- server/src/crypto: what is stored encrypted.
pub mod Gcm
pub mod Bytes
pub mod Media
