-- ===== src/Rpc.antt =====
-- The RPC layer: src/rpc/rpc.cc and src/include/rpc/.
pub mod Window
pub mod Marshall
pub mod Client
pub mod Dispatch
pub mod Framing
