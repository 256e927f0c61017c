-- ===== src/Persistence.antt =====
-- byo_redis/persistence: the snapshot format and the append-only file.
pub mod Rdb
pub mod Aof
