-- ===== src/Commands.antt =====
-- byo_redis/commands: the handlers that work on the store alone; each takes the argument vector, the
-- command's name first.
pub mod Base
pub mod Strings
pub mod Lists
pub mod Hashes
pub mod Keys
pub mod Connection
pub mod Registry
pub mod Answers
