-- ===== src/Local.antt =====
-- The local service of the borrower's machine: a text protocol in front of `RemoteMemory`
-- (clients/windows/ramlink_memory_service.py), and its callers.
pub mod Text
pub mod Words
pub mod Numbers
pub mod Api
pub mod Lines
pub mod Serve
pub mod Callers
pub mod Link
pub mod Calls
pub mod Writes
mod Tests
