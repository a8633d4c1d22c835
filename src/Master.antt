-- ===== src/Master.antt =====
-- The master's side: src/master and src/include/master.
pub mod LockCache
pub mod LockServer
pub mod PrefixTree
pub mod Service
