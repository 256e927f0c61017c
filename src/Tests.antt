-- ===== src/Tests.antt =====
-- The theorems at concrete inputs, and runs of the code that they are about.
pub mod Protocols
pub mod Stores
pub mod Configs
pub mod Files
pub mod Servers
mod Replicas
mod Clients
mod Logs
