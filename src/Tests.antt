-- ===== src/Tests.antt =====
-- Runs of the socket code, the servers, the configuration, the log and the Redis wrapper on concrete systems.
mod Systems
pub mod Sockets
pub mod Server
pub mod Settings
pub mod Files
pub mod Runs
pub mod Entries
pub mod Startup
pub mod Logs
pub mod Memory
pub mod Cache
pub mod Queue
