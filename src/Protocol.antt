-- ===== src/Protocol.antt =====
-- byo_redis/protocol: the RESP2 wire format, its encoders and its incremental parser.
pub mod Object
pub mod Encoder
pub mod Parser
