-- ===== src/Replication.antt =====
-- byo_redis/replication: the master's side, and the replica's.
pub mod Master
pub mod Sync
pub mod Replica
