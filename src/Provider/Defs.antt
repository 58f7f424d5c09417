-- ===== src/Provider/Defs.antt =====
-- `RAMProvider` (clients/windows/ramlink_memory_provider.py). Its class `Lease`, its rounding to sectors and
-- its search for a gap read as those of android/termux/server.py do, and are those of Server/Leases.
-- `clock n` is the n-th reading of the clock in a call; a pass over the lease table reads it once.
use ram_link.Base.{
  ℕ, zero, suc, ◌+◌, ◌*◌, ◌/◌, not, ◌&&◌, ◌||◌, List, [], ◌∷◌, ◌++◌, Option, none, some, ltb, leb,
  ◌==◌, if◌then◌else◌, length, replicate, slice, set_slice, bytes_eq, Dict, lookup, insert, erase,
  contains, Bytes, Result, ok, err, stuck, value_error, runtime_error,
}
use ram_link.Exec.{Exec, ◌>>=◌, ◌>>◌, gets, raise, raise_if, lift, or_raise}
use ram_link.Wire.{max_block}
use ram_link.Wire.Op
use ram_link.Wire.Header.{magic, header_size, unpack_header, pack_lease_reply}
use ram_link.Connection.{Connected, update, on_server, receive, sendall, send_header}
use ram_link.Server.Leases.{
  Lease, sector_size, new_lease, is_alive, renew, expired_ids, erase_ids, sort_by_offset,
  scan_regions,
}
use ram_link.Base.{codes, decimal}
use ram_link.Server.Handle.{Clock, round_up}

pub record RamProvider : Type 0 where
  pub size : ℕ
  pub memory : Bytes
  pub leases : Dict Lease
  pub next_lease_id : ℕ

abbrev pub Action : Type 0 → Type 0
Action = Exec (Connected RamProvider)

-- `RAMProvider(size_mb)`, where the buffer can be allocated
unfoldable pub init : ℕ → Result RamProvider
init size_mb =
    let size = (size_mb * 1024 * 1024 / sector_size) * sector_size in
    if ltb size sector_size
    then err value_error
    else ok (record { size = size; memory = replicate size 0; leases = []; next_lease_id = 1 })

unfoldable pub cleanup : ℕ → RamProvider → RamProvider
unfolding expired_ids erase_ids
cleanup now s = record s { leases = erase_ids (expired_ids now s.leases) s.leases }

-- `leases.values()`
abbrev pub values : Dict Lease → List Lease
values [] = []
values ((_, lease) ∷ leases) = lease ∷ values leases

-- `free_region`, behind its call of `cleanup`
unfoldable pub free_region : ℕ → RamProvider → Option ℕ
unfolding sort_by_offset scan_regions
free_region size s = scan_regions s.size size 0 (sort_by_offset (values s.leases))

-- The block of `borrow` under `lease_lock`.
unfoldable pub register : ℕ → ℕ → ℕ → RamProvider → ℕ × RamProvider
unfolding new_lease
register now offset size s =
    let lease_id = s.next_lease_id in
    (
      lease_id,
      record s {
        next_lease_id = lease_id + 1;
        leases = insert lease_id (new_lease now lease_id offset size) s.leases;
      },
    )

-- `self.memory[offset:offset+length] = data`
unfoldable pub put : ℕ → ℕ → Bytes → RamProvider → RamProvider
put offset size bytes s = record s { memory = set_slice s.memory offset (offset + size) bytes }

unfoldable pub borrow : Clock → ℕ → Action (Unit {0})
unfolding cleanup free_region register put
borrow clock requested = do
  let size = round_up requested
  capacity ← gets (λ s. s.server.size)
  raise_if (leb size 0 || ltb capacity size) value_error
  update (cleanup (clock 0))
  found ← gets (λ s. free_region size s.server)
  offset ← or_raise found runtime_error
  lease_id ← on_server (λ s. let (i, s') = register (clock 1) offset size s in (ok i, s'))
  update (put offset size (replicate size 0))
  payload ← lift (pack_lease_reply lease_id offset size)
  send_header Op.borrow lease_id (length payload)
  sendall payload

unfoldable pub get_lease : ℕ → ℕ → RamProvider → Result Lease × RamProvider
unfolding cleanup
get_lease now lease_id s =
    let s' = cleanup now s in
    elim (lookup lease_id s'.leases) [ none ↦ (err value_error, s') | some lease ↦ (ok lease, s') ]

unfoldable pub ping : Action (Unit {0})
ping = do send_header Op.ping 0 4; sendall (codes "PONG")

unfoldable pub info : Clock → Action (Unit {0})
unfolding cleanup
info clock = do
  update (cleanup (clock 0))
  active ← gets (λ s. length s.server.leases)
  size ← gets (λ s. s.server.size)
  let body =
      codes
        "RAM-LINK\nversion=4\nprotocol=RML1\nrole=PROVIDER\nplatform=WINDOWS\ntransport=TCP\nbuffer_bytes="
      ++ (decimal size
          ++ (codes "\nbuffer_mib="
              ++ (decimal (size / 1024 / 1024)
                  ++ (codes ".00\nactive_leases="
                      ++ (decimal active ++ codes "\nlease_seconds=120\n")))))
  send_header Op.info 0 (length body)
  sendall body

unfoldable pub release : ℕ → Action (Unit {0})
release lease_id = do
  known ← gets (λ s. contains lease_id s.server.leases)
  raise_if (not known) value_error
  update (λ s. record s { leases = erase lease_id s.leases })
  send_header Op.release lease_id 0

unfoldable pub keep : Clock → ℕ → Action (Unit {0})
unfolding get_lease renew
keep clock lease_id = do
  lease ← on_server (get_lease (clock 0) lease_id)
  update (λ s. record s { leases = insert lease.lease_id (renew (clock 1) lease) s.leases })
  send_header Op.keepalive lease_id 0

-- `next(x for x in self.leases.values() if …)`: the first lease alive that holds the range.
unfoldable pub holder : ℕ → ℕ → ℕ → Dict Lease → Option Lease
unfolding is_alive
holder now offset size [] = none
holder now offset size ((_, lease) ∷ leases) =
    if is_alive now lease
      && (leb lease.offset offset && leb (offset + size) (lease.offset + lease.length))
    then some lease
    else holder now offset size leases

-- The branch of READ and WRITE.
unfoldable pub transfer : Clock → ℕ → ℕ → ℕ → Action (Unit {0})
unfolding holder put
transfer clock op offset size = do
  raise_if (ltb max_block size) value_error
  found ← gets (λ s. holder (clock 0) offset size s.server.leases)
  or_raise found value_error
  if op == Op.write
      then (do
        bytes ← receive size
        update (put offset size bytes)
        send_header Op.write offset size)
      else (do
        bytes ← gets (λ s. slice s.server.memory offset (offset + size))
        send_header Op.read offset size
        sendall bytes)

unfoldable pub handle : Clock → ℕ → ℕ → ℕ → Action (Unit {0})
handle clock op offset size =
    if op == Op.ping
    then ping
    else (if op == Op.info
        then info clock
        else (if op == Op.borrow
            then borrow clock size
            else (if op == Op.release
                then release offset
                else (if op == Op.keepalive
                    then keep clock offset
                    else (if op == Op.read || op == Op.write
                        then transfer clock op offset size
                        else raise value_error)))))

-- A round of the loop of `client`
unfoldable pub request : Clock → Action (Unit {0})
request clock = do
  header ← receive header_size
  h ← lift (unpack_header header)
  raise_if (not (bytes_eq h.signature magic)) value_error
  handle clock h.op h.offset h.size

-- `client`: requests until one raises, which ends the connection. `clock n` are the readings of round n.
unfoldable pub client :
    ℕ → (ℕ → Clock) → ℕ → Connected RamProvider → Result (Unit {0}) × Connected RamProvider
client zero clock round s = (stuck, s)
client (suc fuel) clock round s =
    let (r, s') = request (clock round) s in
    elim r [ ok _ ↦ client fuel clock (round + 1) s' | err e ↦ (err e, s') | stuck ↦ (stuck, s') ]
