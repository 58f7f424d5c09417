-- ===== src/EndToEnd.antt =====
-- A client and the phone's server, joined by a network that cuts what is sent as it likes.
pub mod Serve
pub mod Link
pub mod Exchange
pub mod Region
pub mod Stall
pub mod Desktop
pub mod Ping
pub mod Stack
mod Tests
