-- ===== src/PageCache.antt =====
-- `RemoteMemoryCache` (clients/windows/ramlink_cache_manager.py): pages of the remote memory, kept
-- locally, the least recently used one evicted first. The definitions stand in Defs.
pub mod Defs
pub mod Paging
pub mod View
pub mod States
pub mod Load
pub mod Read
pub mod Put
pub mod Write
pub mod Flush
pub mod Eviction
pub mod Fresh
pub mod Session
mod Tests
