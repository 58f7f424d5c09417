-- ===== src/Client/Transfers.antt =====
-- The transfers of the clients: the loops over blocks of android/termux/client.py and of the menu of
-- clients/windows/ramlink_client.py. `sha256` is `hashlib.sha256(…).digest()`, a parameter.
pub mod Laws
use ram_link.Base.{
  ℕ, zero, suc, ◌+◌, ◌-◌, ◌*◌, ◌/◌, min, leb, not, ◌==◌, Bool, true, false, if◌then◌else◌, Option,
  none, some, [], ◌∷◌, ◌++◌, length, take, slice, bytes_eq, Bytes, ok, stuck, value_error,
}
use ram_link.Exec.{Exec, ◌>>=◌, ◌>>◌, pure, raise_if, lift, try_except, try_finally}
use ram_link.Wire.{max_block}
use ram_link.Wire.Op
use ram_link.Wire.Header.{pack_header, unpack_header, unpack_lease_reply, header_size, magic}
use ram_link.Client.Host.{Host, recv_all}
use ram_link.Client.Request.{Reply}
use ram_link.Client.Desktop as Desktop

-- `bytes(range(…))`, from `first` on
abbrev pub counting : ℕ → ℕ → Bytes
counting zero first = []
counting (suc n) first = first ∷ counting n (first + 1)

-- `bytes * n`
abbrev pub repeated : ℕ → Bytes → Bytes
repeated zero bytes = []
repeated (suc n) bytes = bytes ++ repeated n bytes

-- `(bytes(range(256)) * ((size // 256) + 1))[:size]`
unfoldable pub pattern : ℕ → Bytes
pattern size = take size (repeated (size / 256 + 1) (counting 256 0))

module _ {Net : Type 0} (request : ℕ → ℕ → ℕ → Bytes → Exec Net Reply) where
  -- `for offset in range(0, size, MAX_BLOCK)`, from `offset` on: writes `bytes` at `base`
  unfoldable pub write_blocks : ℕ → ℕ → ℕ → Bytes → ℕ → Exec Net (Unit {0})
  write_blocks zero base size bytes offset net = (if leb size offset then ok tt else stuck, net)
  write_blocks (suc fuel) base size bytes offset net = elim (leb size offset) [
    | true ↦ (ok tt, net)
    | false ↦
        (do
          let n = min max_block (size - offset)
          request Op.write (base + offset) n (slice bytes offset (offset + n))
          write_blocks fuel base size bytes (offset + max_block))
          net
  ]

  -- The loop that reads `size` bytes from `base` on, behind those in `out`
  unfoldable pub read_blocks : ℕ → ℕ → ℕ → Bytes → ℕ → Exec Net Bytes
  read_blocks zero base size out offset net = (if leb size offset then ok out else stuck, net)
  read_blocks (suc fuel) base size out offset net = elim (leb size offset) [
    | true ↦ (ok out, net)
    | false ↦
        (do
          let n = min max_block (size - offset)
          reply ← request Op.read (base + offset) n []
          read_blocks fuel base size (out ++ reply.body) (offset + max_block))
          net
  ]

-- The choices 3, 4 and 5 of the menu of ramlink_client.py
pub data Choice : Type 0 where
  write_choice read_choice integrity_choice : Choice

module _ {Net : Type 0} (host : Host Net) where
  -- `request` of client.py
  unfoldable pub request : ℕ → ℕ → ℕ → ℕ → Bytes → Exec Net Reply
  request sock op offset size payload = do
    header ← lift (pack_header op offset size)
    host.sendall sock header
    if length payload == 0 then pure tt else host.sendall sock payload
    answer ← recv_all host sock header_size
    h ← lift (unpack_header answer)
    raise_if (not (bytes_eq h.signature magic)) value_error
    body ← if h.size == 0 then pure [] else recv_all host sock h.size
    pure (record { op = h.op; offset = h.offset; body = body })

  -- client.py up to the lease: the socket, the lease's number and its offset
  unfoldable pub borrow_memory : ℕ → Exec Net (ℕ × ℕ × ℕ)
  unfolding request
  borrow_memory mb = do
    let size = mb * 1024 * 1024
    sock ← host.connect
    reply ← request sock Op.borrow 0 size []
    fields ← lift (unpack_lease_reply reply.body)
    let (lease_id, base, granted) = fields
    pure (sock, lease_id, base)

  -- What the `finally` of client.py does
  unfoldable pub give_back : ℕ → ℕ → Exec Net (Unit {0})
  unfolding request
  give_back sock lease_id = do
    try_except (do request sock Op.release lease_id 0 []; pure tt) (λ _. pure tt)
    host.close sock

module _ {Net : Type 0} (host : Host Net) (sha256 : Bytes → Bytes) where
  -- The transfers of client.py inside its `try`: whether the digests agree
  unfoldable pub check_memory : ℕ → ℕ → ℕ → Exec Net Bool
  unfolding request write_blocks read_blocks pattern
  check_memory sock base size = do
    write_blocks (request host sock) size base size (pattern size) 0
    out ← read_blocks (request host sock) size base size [] 0
    pure (bytes_eq (sha256 out) (sha256 (pattern size)))

  -- client.py, for `mb` MiB
  unfoldable pub borrow_and_check : ℕ → Exec Net Bool
  unfolding borrow_memory check_memory give_back
  borrow_and_check mb = do
    lease ← borrow_memory host mb
    let (sock, lease_id, base) = lease
    try_finally (check_memory sock base (mb * 1024 * 1024)) (give_back host sock lease_id)

  -- What the menu does for them, and the verdict of INTEGRITY
  unfoldable pub transfer_choice : Choice → ℕ → ℕ → Exec Net (Option Bool)
  unfolding write_blocks read_blocks pattern
  transfer_choice write_choice sock mb = do
    let size = mb * 1024 * 1024
    write_blocks (Desktop.request host sock) size 0 size (pattern size) 0
    pure none
  transfer_choice read_choice sock mb = do
    let size = mb * 1024 * 1024
    read_blocks (Desktop.request host sock) size 0 size [] 0
    pure none
  transfer_choice integrity_choice sock mb = do
    let size = mb * 1024 * 1024
    write_blocks (Desktop.request host sock) size 0 size (pattern size) 0
    out ← read_blocks (Desktop.request host sock) size 0 size [] 0
    pure (some (bytes_eq (sha256 out) (sha256 (pattern size))))
