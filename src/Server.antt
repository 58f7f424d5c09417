-- ===== src/Server.antt =====
-- `RAMLinkServer` (android/termux/server.py): the phone's buffer, the leases on it, and the requests
-- of one connection. The definitions stand in the first four modules and in Race, the proofs in the others.
pub mod Leases
pub mod Session
pub mod Info
pub mod Handle
pub mod Regions
pub mod Invariant
pub mod Quiet
pub mod Ranges
pub mod Preserve
pub mod Connection
pub mod Transfers
pub mod Borrow
pub mod Race
pub mod Overlap
mod Tests
