-- ===== src/Storage.antt =====
-- byo_redis/storage: the keyspace.
pub mod Types
pub mod Expiry
pub mod Store
pub mod Values
pub mod Sweep
pub mod Memory
pub mod Valid
pub mod View
