-- ===== src/Service.antt =====
-- clients/windows/ramlink_memory_service.py: `RemoteMemory`, which keeps a lease and its connection, and
-- `LocalApi`. The definitions stand in Memory and Local.
pub mod Memory
pub mod Requests
pub mod Region
pub mod Reconnect
pub mod Release
mod Tests
