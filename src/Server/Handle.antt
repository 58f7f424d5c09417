-- ===== src/Server/Handle.antt =====
-- `borrow`, `info`, `handle` and `client` (android/termux/server.py).
-- `clock n` is the n-th reading of the clock in a call; a pass over the lease table reads it once.
use ram_link.Base.{
  ℕ, zero, suc, ◌+◌, ◌-◌, ◌*◌, ◌/◌, not, ◌||◌, ltb, leb, ◌==◌, if◌then◌else◌, length, replicate,
  slice, bytes_eq, erase, Bytes, Result, ok, err, stuck, value_error, runtime_error,
}
use ram_link.Exec.{◌>>=◌, ◌>>◌, gets, raise, raise_if, lift, or_raise}
use ram_link.Wire.{max_block}
use ram_link.Wire.Op
use ram_link.Wire.Header.{pack_block_info, magic, header_size, unpack_header, pack_lease_reply}
use ram_link.Server.Leases.{
  sector_size, find_free_region, cleanup_expired, register_lease, store, get_lease, keepalive,
  valid_range,
}
use ram_link.Connection.{update, on_server, receive, sendall, send_header}
use ram_link.Server.Session.{Session, Action}
use ram_link.Base.{codes}
use ram_link.Server.Info.{info_text}

abbrev pub Clock : Type 0
Clock = ℕ → ℕ

-- The block's length for a requested length: whole sectors.
abbrev pub round_up : ℕ → ℕ
round_up requested = ((requested + sector_size - 1) / sector_size) * sector_size

-- The reply of `borrow`.
unfoldable pub send_lease : ℕ → ℕ → ℕ → Action (Unit {0})
send_lease lease_id offset size = do
  payload ← lift (pack_lease_reply lease_id offset size)
  send_header Op.borrow lease_id (length payload)
  sendall payload

unfoldable pub borrow : Clock → ℕ → Action (Unit {0})
unfolding cleanup_expired register_lease store
borrow clock requested = do
  update (cleanup_expired (clock 0))
  let size = round_up requested
  capacity ← gets (λ s. s.server.size)
  raise_if (leb size 0 || ltb capacity size) value_error
  found ← gets (λ s. find_free_region (clock 1) size s.server)
  offset ← or_raise found runtime_error
  lease_id ← on_server (λ s. let (i, s') = register_lease (clock 2) offset size s in (ok i, s'))
  update (store offset size (replicate size 0))
  send_lease lease_id offset size

unfoldable pub info : Clock → Action (Unit {0})
unfolding cleanup_expired
info clock = do
  update (cleanup_expired (clock 0))
  text ← gets (λ s. info_text s.server.size s.server.sectors (length s.server.leases))
  send_header Op.info 0 (length text)
  sendall text

unfoldable pub ping : Action (Unit {0})
ping = do send_header Op.ping 0 4; sendall (codes "PONG")

unfoldable pub release : Clock → ℕ → Action (Unit {0})
release clock lease_id = do
  on_server (get_lease (clock 0) lease_id)
  update (λ s. record s { leases = erase lease_id s.leases })
  send_header Op.release lease_id 0

unfoldable pub keep : Clock → ℕ → Action (Unit {0})
unfolding keepalive
keep clock lease_id = do
  lease ← on_server (get_lease (clock 0) lease_id)
  update (keepalive (clock 1) lease)
  send_header Op.keepalive lease_id 0

-- The branch of READ and WRITE.
unfoldable pub transfer : ℕ → ℕ → ℕ → Action (Unit {0})
unfolding valid_range store
transfer op offset size = do
  valid ← gets (λ s. valid_range offset size s.server)
  raise_if (ltb max_block size || not valid) value_error
  if op == Op.write
      then (do
        bytes ← receive size
        update (store offset size bytes)
        send_header Op.write offset size)
      else (do
        bytes ← gets (λ s. slice s.server.memory offset (offset + size))
        send_header Op.read offset size
        sendall bytes)

unfoldable pub block_info : Action (Unit {0})
block_info = do
  sectors ← gets (λ s. s.server.sectors)
  payload ← lift (pack_block_info sector_size sectors)
  send_header Op.block_info 0 (length payload)
  sendall payload

-- The branch of BLOCK_READ and BLOCK_WRITE: `sector` and `count` are the header's offset and length.
unfoldable pub block_transfer : ℕ → ℕ → ℕ → Action (Unit {0})
unfolding store
block_transfer op sector count = do
  sectors ← gets (λ s. s.server.sectors)
  raise_if (ltb sectors sector || ltb (sectors - sector) count) value_error
  let byte_length = count * sector_size
  raise_if (ltb max_block byte_length) value_error
  let byte_offset = sector * sector_size
  if op == Op.block_write
      then (do
        bytes ← receive byte_length
        update (store byte_offset byte_length bytes)
        send_header Op.block_write sector count)
      else (do
        bytes ← gets (λ s. slice s.server.memory byte_offset (byte_offset + byte_length))
        send_header Op.block_read sector count
        sendall bytes)

unfoldable pub handle : Clock → ℕ → ℕ → ℕ → Action (Unit {0})
handle clock op offset size =
    if op == Op.info
    then info clock
    else (if op == Op.ping
        then ping
        else (if op == Op.borrow
            then borrow clock size
            else (if op == Op.release
                then release clock offset
                else (if op == Op.keepalive
                    then keep clock offset
                    else (if op == Op.read || op == Op.write
                        then transfer op offset size
                        else (if op == Op.block_info
                            then block_info
                            else (if op == Op.block_read || op == Op.block_write
                                then block_transfer op offset size
                                else raise value_error)))))))

-- The rest of a round of the loop of `client`, once the header is there.
unfoldable pub dispatch : Clock → Bytes → Action (Unit {0})
dispatch clock header = do
  h ← lift (unpack_header header)
  raise_if (not (bytes_eq h.signature magic)) value_error
  handle clock h.op h.offset h.size

unfoldable pub request : Clock → Action (Unit {0})
request clock = do header ← receive header_size; dispatch clock header

-- `client`: requests until one raises, which ends the connection. `clock n` are the readings of round n.
unfoldable pub client : ℕ → (ℕ → Clock) → ℕ → Session → Result (Unit {0}) × Session
client zero clock round s = (stuck, s)
client (suc fuel) clock round s =
    let (r, s') = request (clock round) s in
    elim r [ ok _ ↦ client fuel clock (round + 1) s' | err e ↦ (err e, s') | stuck ↦ (stuck, s') ]
