-- ===== src/Client.antt =====
-- The borrower's side of RML1: sockets, `recv_all` and a request.
pub mod Host
pub mod Request
pub mod Laws
pub mod Desktop
pub mod Transfers
mod Tests
