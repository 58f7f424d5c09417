-- ===== src/Local/Callers.antt =====
-- The callers of the local service: `RemoteAPI` (clients/windows/ramlink_cache_manager.py) and `_Service`
-- (clients/windows/ramlink_memory_api.py). Each call has a connection of its own, and offsets are not negative.
use ram_link.Base.{
  ℕ, ◌==◌, not, Bool, ltb, if◌then◌else◌, ◌++◌, length, take, bytes_eq, Bytes, Result, ok, err,
  value_error, os_error, struct_error, codes,
}
use ram_link.Exec.{Exec, ◌>>=◌, ◌>>◌, pure, raise_if, lift, try_finally}
use ram_link.Wire.{max_block, be_value}
use ram_link.Client.Host.{Host, recv_all}
use ram_link.Local.Text.{Text, decode, strip}
use ram_link.Local.Lines.{command_line}

-- `struct.unpack("!I", bytes)[0]`
unfoldable pub unpack_size : Bytes → Result ℕ
unpack_size bytes = if length bytes == 4 then ok (be_value bytes) else err struct_error

-- `text.startswith(prefix)`
unfoldable pub starts_with : Text → Text → Bool
unfolding bytes_eq
starts_with text prefix = bytes_eq (take (length prefix) text) prefix

module _ {Net : Type 0} (host : Host Net) where
  -- A connection, with what is sent on it and how the reply is read.
  unfoldable pub exchange : {A : Type 0} → Bytes → (ℕ → Exec Net A) → Exec Net A
  exchange bytes reply = do
    sock ← host.connect
    try_finally (host.sendall sock bytes >> reply sock) (host.close sock)

  -- The reply of `call` with `expect_bytes`
  unfoldable pub sized_reply : ℕ → Exec Net Bytes
  unfolding unpack_size
  sized_reply sock = do
    head ← recv_all host sock 4
    size ← lift (unpack_size head)
    recv_all host sock size

  -- The reply of `call` without `expect_bytes`
  unfoldable pub text_reply : ℕ → Exec Net Text
  text_reply sock = do bytes ← host.recv sock max_block; pure (decode bytes)

  -- `RemoteAPI.read`
  unfoldable pub api_read : ℕ → ℕ → Exec Net Bytes
  unfolding exchange sized_reply
  api_read offset size = exchange (command_line (codes "READ") offset size) sized_reply

  -- `RemoteAPI.write`
  unfoldable pub api_write : ℕ → Bytes → Exec Net (Unit {0})
  unfolding exchange text_reply starts_with
  api_write offset bytes = do
    result ← exchange (command_line (codes "WRITE") offset (length bytes) ++ bytes) text_reply
    raise_if (not (starts_with result (codes "OK"))) os_error

  -- What `_Service.read` reads
  unfoldable pub exact_reply : ℕ → ℕ → Exec Net Bytes
  unfolding unpack_size
  exact_reply expected sock = do
    head ← recv_all host sock 4
    size ← lift (unpack_size head)
    raise_if (not (size == expected)) os_error
    recv_all host sock size

  -- `_Service.read`
  unfoldable pub service_read : ℕ → ℕ → Exec Net Bytes
  unfolding exchange exact_reply
  service_read offset size = do
    raise_if (ltb max_block size) value_error
    exchange (command_line (codes "READ") offset size) (exact_reply size)

  -- What `_Service.write` reads
  unfoldable pub ok_reply : ℕ → Exec Net (Unit {0})
  ok_reply sock = do
    bytes ← host.recv sock 64
    raise_if (not (bytes_eq (strip (decode bytes)) (codes "OK"))) os_error

  -- `_Service.write`
  unfoldable pub service_write : ℕ → Bytes → Exec Net (Unit {0})
  unfolding exchange ok_reply
  service_write offset bytes = do
    raise_if (ltb max_block (length bytes)) value_error
    exchange (command_line (codes "WRITE") offset (length bytes) ++ bytes) ok_reply
