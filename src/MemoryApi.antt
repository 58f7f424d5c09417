-- ===== src/MemoryApi.antt =====
-- clients/windows/ramlink_memory_api.py: memory regions for applications, over a page cache. The definitions
-- stand in Cache and Regions.
pub mod Cache
pub mod Mirror
pub mod Methods
pub mod Contents
pub mod Regions
pub mod Layout
pub mod Steady
pub mod Steps
pub mod Isolation
mod Tests
