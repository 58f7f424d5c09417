-- ===== src/Local/Api.antt =====
-- `LocalApi` (clients/windows/ramlink_memory_service.py): one connection of the local service.
use ram_link.Base.{
  ℕ, ◌^◌, Bool, false, ◌||◌, ltb, if◌then◌else◌, none, some, List, [], ◌∷◌, ◌++◌, length, bytes_eq,
  Bytes, Error, Result, ok, err, value_error, struct_error, key_error, codes, decimal,
}
use ram_link.Exec.{Exec, ◌>>=◌, ◌>>◌, pure, raise, raise_if, lift, or_raise, try_except}
use ram_link.Wire.{max_block, recv, be_bytes}
use ram_link.Connection.{Connected, on_server, receive, sendall}
use ram_link.Client.Host.{Host}
use ram_link.Service.Memory.{RemoteMemory, Service, now, read, write}
use ram_link.Local.Text.{Text, decode, strip, split, is_empty, Unicode, ℤ, pos, negsuc, upper, int}

abbrev pub Local : Type 0 → Type 0
Local Net = Connected (Service Net)

-- `struct.pack("!I", n)`
unfoldable pub pack_size : ℕ → Result Bytes
pack_size n = if ltb n (256 ^ 4) then ok (be_bytes 4 n) else err struct_error

-- `length > MAX_TRANSFER`
abbrev pub is_long : ℤ → Bool
is_long (pos n) = ltb max_block n
is_long (negsuc n) = false

-- Python's tables of characters, the text that `STATUS` sends at a time, and that of an exception.
module _ {Net : Type 0} (host : Host Net) (unicode : Unicode)
    (status_text : RemoteMemory → ℕ → Bytes) (message : Error → Bytes) where
  -- `conn.recv(n)`
  unfoldable pub receive_some : ℕ → Exec (Local Net) Bytes
  receive_some n s =
      let (bytes, input) = recv n s.conn.input in
      (ok bytes, record s { conn = record { input = input; output = s.conn.output } })

  -- `self.memory.read(offset, length)`
  unfoldable pub memory_read : ℤ → ℤ → Exec (Service Net) Bytes
  memory_read (pos offset) (pos size) = read host offset size
  memory_read _ _ = raise value_error

  -- `self.memory.write(offset, data)`
  unfoldable pub memory_write : ℤ → Bytes → Exec (Service Net) (Unit {0})
  memory_write (pos offset) bytes = write host offset bytes
  memory_write (negsuc offset) bytes = raise value_error

  -- `recv_all(conn, length)`
  unfoldable pub receive_bytes : ℤ → Exec (Local Net) Bytes
  receive_bytes (pos size) = receive size
  receive_bytes (negsuc size) = pure []

  -- `self.memory.status()`, which reads the clock once the memory is borrowed
  unfoldable pub status : Exec (Service Net) (RemoteMemory × ℕ)
  status s = elim s.memory.started [
    | none ↦ (ok (s.memory, 0), s)
    | some t ↦ (now host >>= λ time s'. (ok (s'.memory, time), s')) s
  ]

  unfoldable pub serve_size : Exec (Local Net) (Unit {0})
  unfolding status
  serve_size = do s ← on_server status; sendall (decimal s.0.length ++ codes "\n")

  unfoldable pub serve_status : Exec (Local Net) (Unit {0})
  unfolding status
  serve_status = do s ← on_server status; sendall (status_text s.0 s.1)

  unfoldable pub serve_read : Text → Text → Exec (Local Net) (Unit {0})
  unfolding memory_read pack_size
  serve_read a b = do
    offset ← or_raise (int unicode a) value_error
    size ← or_raise (int unicode b) value_error
    raise_if (is_long size) value_error
    bytes ← on_server (memory_read offset size)
    header ← lift (pack_size (length bytes))
    sendall (header ++ bytes)

  unfoldable pub serve_write : Text → Text → Exec (Local Net) (Unit {0})
  unfolding memory_write receive_bytes
  serve_write a b = do
    offset ← or_raise (int unicode a) value_error
    size ← or_raise (int unicode b) value_error
    raise_if (is_long size) value_error
    bytes ← receive_bytes size
    on_server (memory_write offset bytes)
    sendall (codes "OK\n")

  abbrev pub invalid : Exec (Local Net) (Unit {0})
  invalid = sendall (codes "ERROR invalid command\n")

  -- The commands with two arguments.
  unfoldable pub transfer : Text → List Text → Exec (Local Net) (Unit {0})
  unfolding serve_read serve_write
  transfer command (a ∷ (b ∷ [])) =
      if bytes_eq command (codes "READ")
      then serve_read a b
      else if bytes_eq command (codes "WRITE")
      then serve_write a b
      else invalid
  transfer command arguments = invalid

  -- `handle`, from the words of the line on; a line that is not empty has a word
  unfoldable pub dispatch : List Text → Exec (Local Net) (Unit {0})
  unfolding serve_size serve_status transfer
  dispatch [] = raise key_error
  dispatch (word ∷ arguments) =
      let command = upper unicode word in
      if bytes_eq command (codes "HELLO") || bytes_eq command (codes "PING")
      then sendall (codes "RAM-LINK LOCAL API 2\n")
      else if bytes_eq command (codes "SIZE")
      then serve_size
      else if bytes_eq command (codes "STATUS")
      then serve_status
      else transfer command arguments

  unfoldable pub handle : Exec (Local Net) (Unit {0})
  unfolding receive_some dispatch
  handle = do
    bytes ← receive_some 4096
    let line = strip (decode bytes)
    if is_empty line then pure tt else dispatch (split line)

  -- `client`; the connection is closed then
  unfoldable pub client : Exec (Local Net) (Unit {0})
  unfolding handle
  client = try_except handle (λ e. sendall (codes "ERROR " ++ (message e ++ codes "\n")))
