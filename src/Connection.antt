-- ===== src/Connection.antt =====
-- One connection of a server: the bytes to come, the bytes sent, and the server behind it.
-- `recv_all`, `send_header` and `sendall` (android/termux/server.py, clients/windows/ramlink_memory_provider.py).
pub mod Quiet
use ram_link.Base.{ℕ, ◌++◌, Bytes, Result, ok}
use ram_link.Exec.{Exec, ◌>>=◌, lift}
use ram_link.Wire.{Chunks, recv_all}
use ram_link.Wire.Header.{pack_header}

pub record Conn : Type 0 where
  pub input : Chunks
  pub output : Bytes

-- A server of type `S`, and a connection to it.
pub record Connected (S : Type 0) : Type 0 where
  pub server : S
  pub conn : Conn

module _ {S : Type 0} where
  -- A step of the server alone, with no result, and one that may raise.
  abbrev pub update : (S → S) → Exec (Connected S) (Unit {0})
  update f s = (ok tt, record s { server = f s.server })

  abbrev pub on_server : {A : Type 0} → (S → Result A × S) → Exec (Connected S) A
  on_server f s = let (r, server) = f s.server in (r, record s { server = server })

  unfoldable pub receive : ℕ → Exec (Connected S) Bytes
  receive size s =
      let (r, input) = recv_all size s.conn.input in
      (r, record s { conn = record { input = input; output = s.conn.output } })

  -- `conn.sendall(bytes)`, on a connection that takes what is sent
  unfoldable pub sendall : Bytes → Exec (Connected S) (Unit {0})
  sendall bytes s =
      (ok tt, record s { conn = record { input = s.conn.input; output = s.conn.output ++ bytes } })

  unfoldable pub send_header : ℕ → ℕ → ℕ → Exec (Connected S) (Unit {0})
  unfolding sendall
  send_header op offset length = do header ← lift (pack_header op offset length); sendall header
