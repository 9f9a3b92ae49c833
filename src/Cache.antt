-- ===== src/Cache.antt =====
-- packages/cache: the in-memory cache, and the lock that is built on it.
pub mod Number
pub mod Value
pub mod InMemory
pub mod Lock
pub mod Tests
