-- ===== src/Dbkv.antt =====
-- The key-value plugin of plugins/dbkv-rocksdb: the store over RocksDB, its stream on a device, and
-- the keys under a prefix.
pub mod Engine
pub mod Stream
pub mod Keys
pub mod Store
pub mod Reopening
mod Examples
