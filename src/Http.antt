-- ===== src/Http.antt =====
-- server/src/http: what is served.
pub mod Zip
