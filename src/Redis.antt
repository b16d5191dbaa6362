-- ===== src/Redis.antt =====
-- ctcpsvr/redis_api.cpp: the wrapper of the Redis client. Log lines and the time stamps are left out.
-- One thread at a time calls it.
pub mod Client
pub mod Calls
pub mod Ready
pub mod Session
pub mod Queue
pub mod Context
