-- ===== src/Client.antt =====
-- The client's side: src/client and src/include/client.
pub mod ExtentCache
pub mod Yfs
pub mod LockCache
