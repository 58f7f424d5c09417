-- ===== src/RemoteCache.antt =====
-- The phone's write-through cache of pages (android/termux/remote_cache.py).
pub mod Defs
pub mod Pages
pub mod Loading
pub mod Bounded
pub mod Hit
mod Tests
