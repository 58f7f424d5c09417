-- ===== src/Server/Leases.antt =====
-- `Lease`, the fields of `RAMLinkServer`, and the lease table (android/termux/server.py).
-- Times are readings of `time.monotonic()` in nanoseconds, given as arguments.
use ram_link.Base.{
  ℕ, ◌+◌, ◌-◌, ◌*◌, ◌/◌, max, Bool, ◌&&◌, List, [], ◌∷◌, Option, none, some, ltb, leb,
  if◌then◌else◌, Dict, lookup, insert, erase, replicate, set_slice, Bytes, Result, ok, err,
  value_error,
}

-- SECTOR_SIZE
abbrev pub sector_size : ℕ
sector_size = 512

-- LEASE_SECONDS, on the clock's scale
abbrev pub lease_time : ℕ
lease_time = 120 * 1_000_000_000

pub record Lease : Type 0 where
  pub lease_id : ℕ
  pub offset : ℕ
  pub length : ℕ
  pub expires_at : ℕ

-- `Lease(lease_id, offset, length)`
unfoldable pub new_lease : ℕ → ℕ → ℕ → ℕ → Lease
new_lease now lease_id offset length = record {
  lease_id = lease_id;
  offset = offset;
  length = length;
  expires_at = now + lease_time;
}

-- `Lease.alive`
unfoldable pub is_alive : ℕ → Lease → Bool
is_alive now lease = ltb now lease.expires_at

-- `Lease.keepalive`
unfoldable pub renew : ℕ → Lease → Lease
renew now lease = record lease { expires_at = now + lease_time }

pub record RamLinkServer : Type 0 where
  pub size : ℕ
  pub memory : Bytes
  pub sectors : ℕ
  pub leases : Dict Lease
  pub next_lease_id : ℕ

-- `RAMLinkServer(size_mb)`, where the buffer can be allocated
unfoldable pub init : ℕ → Result RamLinkServer
init size_mb =
    let size = (size_mb * 1024 * 1024 / sector_size) * sector_size in
    if ltb size sector_size
    then err value_error
    else ok (record {
      size = size;
      memory = replicate size 0;
      sectors = size / sector_size;
      leases = [];
      next_lease_id = 1;
    })

-- `valid_range`; the numbers of a header are not negative
unfoldable pub valid_range : ℕ → ℕ → RamLinkServer → Bool
valid_range offset length s = leb offset s.size && leb length (s.size - offset)

-- The leases of the table that are alive, in the table's order.
unfoldable pub live : ℕ → Dict Lease → List Lease
unfolding is_alive
live now [] = []
live now ((_, lease) ∷ leases) =
    let rest = live now leases in if is_alive now lease then lease ∷ rest else rest

-- `sorted(…, key=lambda x: x.offset)`, which is stable
unfoldable pub insert_by_offset : Lease → List Lease → List Lease
insert_by_offset lease [] = lease ∷ []
insert_by_offset lease (other ∷ leases) =
    if leb lease.offset other.offset
    then lease ∷ other ∷ leases
    else other ∷ insert_by_offset lease leases

unfoldable pub sort_by_offset : List Lease → List Lease
unfolding insert_by_offset
sort_by_offset [] = []
sort_by_offset (lease ∷ leases) = insert_by_offset lease (sort_by_offset leases)

-- The loop of `find_free_region`, and the test behind it.
unfoldable pub scan_regions : ℕ → ℕ → ℕ → List Lease → Option ℕ
scan_regions size length cursor [] = if leb (cursor + length) size then some cursor else none
scan_regions size length cursor (lease ∷ leases) =
    if leb (cursor + length) lease.offset
    then some cursor
    else scan_regions size length (max cursor (lease.offset + lease.length)) leases

unfoldable pub find_free_region : ℕ → ℕ → RamLinkServer → Option ℕ
unfolding live sort_by_offset scan_regions
find_free_region now length s = scan_regions s.size length 0 (sort_by_offset (live now s.leases))

-- The ids that `cleanup_expired` collects, and the deletions.
unfoldable pub expired_ids : ℕ → Dict Lease → List ℕ
unfolding is_alive
expired_ids now [] = []
expired_ids now ((lease_id, lease) ∷ leases) =
    let rest = expired_ids now leases in if is_alive now lease then rest else lease_id ∷ rest

unfoldable pub erase_ids : List ℕ → Dict Lease → Dict Lease
erase_ids [] leases = leases
erase_ids (lease_id ∷ ids) leases = erase_ids ids (erase lease_id leases)

unfoldable pub cleanup_expired : ℕ → RamLinkServer → RamLinkServer
unfolding expired_ids erase_ids
cleanup_expired now s = record s { leases = erase_ids (expired_ids now s.leases) s.leases }

-- The block of `borrow` under `lease_lock`: a lease under the next id.
unfoldable pub register_lease : ℕ → ℕ → ℕ → RamLinkServer → ℕ × RamLinkServer
unfolding new_lease
register_lease now offset length s =
    let lease_id = s.next_lease_id in
    (
      lease_id,
      record s {
        next_lease_id = lease_id + 1;
        leases = insert lease_id (new_lease now lease_id offset length) s.leases;
      },
    )

-- `self.memory[offset:offset + length] = data`
unfoldable pub store : ℕ → ℕ → Bytes → RamLinkServer → RamLinkServer
store offset length bytes s = record s {
  memory = set_slice s.memory offset (offset + length) bytes;
}

-- `get_lease`: an expired lease that it meets is deleted.
unfoldable pub get_lease : ℕ → ℕ → RamLinkServer → Result Lease × RamLinkServer
unfolding is_alive
get_lease now lease_id s = elim (lookup lease_id s.leases) [
  | none ↦ (err value_error, s)
  | some lease ↦
      if is_alive now lease
      then (ok lease, s)
      else (err value_error, record s { leases = erase lease_id s.leases })
]

-- `release`, which no request calls
unfoldable pub release : ℕ → RamLinkServer → Result (Unit {0}) × RamLinkServer
release lease_id s = elim (lookup lease_id s.leases) [
  | none ↦ (err value_error, s)
  | some lease ↦ (ok tt, record s { leases = erase lease_id s.leases })
]

-- `lease.keepalive()` on a lease of the table, which is the object that the table holds
unfoldable pub keepalive : ℕ → Lease → RamLinkServer → RamLinkServer
unfolding renew
keepalive now lease s = record s { leases = insert lease.lease_id (renew now lease) s.leases }
