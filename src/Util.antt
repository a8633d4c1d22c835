-- ===== src/Util.antt =====
-- Utilities: src/include/util.
pub mod Lru
