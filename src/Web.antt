-- ===== src/Web.antt =====
-- The management console: src/waifu_standalone/web.
pub mod Auth
