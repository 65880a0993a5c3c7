-- ===== src/Web.antt =====
-- web/src/lib: what the web client computes.
pub mod Ogg
