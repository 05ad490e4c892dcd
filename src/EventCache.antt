-- ===== src/EventCache.antt =====
-- internal/eventcache/eventcache.go: the cache of events in Redis.
pub mod Cache
pub mod Keys
pub mod Invariant
pub mod Sound
