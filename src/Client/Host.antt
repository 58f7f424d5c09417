-- ===== src/Client/Host.antt =====
-- What the clients use of Python's `socket` and `time` modules: a parameter. A socket is named by a number.
use ram_link.Base.{
  ℕ, zero, suc, ◌-◌, ◌++◌, [], min, ltb, leb, if◌then◌else◌, true, false, length, Bytes, Result, ok,
  stuck, connection_error,
}
use ram_link.Exec.{Exec, ◌>>=◌, raise}
use ram_link.Wire.{max_block}

pub record Host (Net : Type 0) : Type 0 where
  -- a socket connected to the server, or an exception and no socket
  pub connect : Net → Result ℕ × Net
  -- `sock.sendall(bytes)`
  pub sendall : ℕ → Bytes → Net → Result (Unit {0}) × Net
  -- `sock.recv(n)`
  pub recv : ℕ → ℕ → Net → Result Bytes × Net
  -- `sock.close()`, which may raise
  pub close : ℕ → Net → Result (Unit {0}) × Net
  -- `time.time()`
  pub time : Net → ℕ × Net

module _ {Net : Type 0} (host : Host Net) where
  -- The loop of `recv_all`; each round brings a byte at least.
  unfoldable pub receiving : ℕ → ℕ → ℕ → Bytes → Exec Net Bytes
  receiving zero sock size received net =
      (if ltb (length received) size then stuck else ok received, net)
  receiving (suc fuel) sock size received net = elim (ltb (length received) size) [
    | false ↦ (ok received, net)
    | true ↦
        (do
          chunk ← host.recv sock (min max_block (size - length received))
          elim (leb (length chunk) 0) [
            | true ↦ raise connection_error
            | false ↦ receiving fuel sock size (received ++ chunk)
          ])
          net
  ]

  -- `recv_all(sock, size)`
  unfoldable pub recv_all : ℕ → ℕ → Exec Net Bytes
  unfolding receiving
  recv_all sock size = receiving size sock size []
