-- ===== src/Api.antt =====
-- src/api.c: the handle and what callers set in it.
pub mod Handle
pub mod Readonly
pub mod CodeBuffer
