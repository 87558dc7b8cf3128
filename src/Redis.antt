-- ===== src/Redis.antt =====
-- src/backends/redis: the operations of the Redis backend on the keys of the index.
pub mod Delete
pub mod Find
pub mod Keys
pub mod Tag
pub mod Write
