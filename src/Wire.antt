-- ===== src/Wire.antt =====
-- The RML1 wire format and the sockets under it, as android/termux/server.py uses them.
mod BigEndian
mod Stream
pub mod Header
pub mod Op
pub mod RoundTrip
pub mod Receive
mod Tests
pub use BigEndian.{length-be_bytes, be_value-be_bytes}
unfoldable pub use BigEndian.{be_bytes, be_value, be_into, value_from, IsByte, AreBytes}
unfoldable pub use Stream.{Chunks, flatten, AreNonempty, recv, recv_loop, recv_all, max_block}
