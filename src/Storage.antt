-- ===== src/Storage.antt =====
-- The storage engine: src/storage and src/include/storage.
pub mod Codec
pub mod Log
pub mod Sst
pub mod Memtable
pub mod MultiIter
