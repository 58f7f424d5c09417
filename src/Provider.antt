-- ===== src/Provider.antt =====
-- `RAMProvider` (clients/windows/ramlink_memory_provider.py): memory of a PC, leased to the phone. READ and
-- WRITE must stay inside a lease. The definitions stand in Defs.
pub mod Defs
pub mod Isolation
pub mod Table
pub mod Steps
pub mod Invariant
mod Tests
