-- ===== src/Server.antt =====
-- byo_redis/server.py: RedisServer.
pub mod State
pub mod Admins
pub mod Execute
pub mod Keeps
pub mod Rollback
pub mod Valid
pub mod Frame
pub mod Clients
pub mod Guards
pub mod Loading
