-- ===== src/Client/Yfs.antt =====
-- The file system operations `yfs_client` of src/client/yfs_client.cc.
pub mod Dir
pub mod Io
pub mod Ops
pub mod Locks
pub mod Content
pub mod Values
pub mod ReadWrite
pub mod Cached
pub mod Directory
mod Examples
