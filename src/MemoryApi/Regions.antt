-- ===== src/MemoryApi/Regions.antt =====
-- `MemoryRegion` and `RAMLinkMemory` (clients/windows/ramlink_memory_api.py). A region is an object that the list
-- `regions` holds; the application's reference to it is its place in that list, in the order of allocation.
use ram_link.Base.{
  ℕ, zero, suc, ◌+◌, ◌-◌, ◌*◌, min, Bool, true, false, ◌||◌, List, [], ◌∷◌, ◌++◌, ltb, leb, ◌==◌,
  if◌then◌else◌, length, get_elem?, replicate, take, Bytes, Result, ok, err, stuck, value_error,
  runtime_error, memory_error, key_error,
}
use ram_link.Exec.{Exec, ◌>>=◌, ◌>>◌, pure, gets, raise_if, or_raise, modify}
use ram_link.Backend.{Backend, max_transfer}
use ram_link.MemoryApi.Cache.{Store, new_cache, read, write, flush}

pub record MemoryRegion : Type 0 where
  pub offset : ℕ
  pub size : ℕ
  pub closed : Bool

-- `self.closed = True` at one of the regions
abbrev pub set_closed : List MemoryRegion → ℕ → List MemoryRegion
set_closed [] i = []
set_closed (r ∷ rs) zero = record r { closed = true } ∷ rs
set_closed (r ∷ rs) (suc i) = r ∷ set_closed rs i

-- `region.close()` at each of them
abbrev pub all_closed : List MemoryRegion → List MemoryRegion
all_closed [] = []
all_closed (r ∷ rs) = record r { closed = true } ∷ all_closed rs

pub record RamLinkMemory (Remote : Type 0) : Type 0 where
  pub store : Store Remote
  pub next_offset : ℕ
  pub regions : List MemoryRegion

module _ {Remote : Type 0} where
  -- `RAMLinkMemory(remote_mb, cache_mb)`, with the remote memory as it is
  unfoldable pub new_memory : ℕ → ℕ → Remote → Result (RamLinkMemory Remote)
  unfolding new_cache
  new_memory remote_mb cache_mb remote =
      if ltb remote_mb 1 || ltb cache_mb 1
      then err value_error
      else ok (record {
        store = record {
          cache = new_cache (remote_mb * 1024 * 1024) (cache_mb * 1024 * 1024);
          remote = remote;
        };
        next_offset = 0;
        regions = [];
      })

  -- `allocate`, which returns the new region
  unfoldable pub allocate : ℕ → Exec (RamLinkMemory Remote) ℕ
  allocate size = do
    raise_if (leb size 0) value_error
    m ← gets (λ m. m)
    raise_if (ltb m.store.cache.remote_size (m.next_offset + size)) memory_error
    let region : MemoryRegion = record { offset = m.next_offset; size = size; closed = false }
    modify
        (λ m. record m { next_offset = m.next_offset + size; regions = m.regions ++ (region ∷ []) })
    pure (length m.regions)

  -- The object that a reference leads to.
  unfoldable pub deref : ℕ → Exec (RamLinkMemory Remote) MemoryRegion
  deref region = do found ← gets (λ m. get_elem? m.regions region); or_raise found key_error

  -- `MemoryRegion._check`; the offsets and lengths are not negative
  unfoldable pub check_region : ℕ → ℕ → ℕ → Exec (RamLinkMemory Remote) MemoryRegion
  unfolding deref
  check_region region offset size = do
    r ← deref region
    raise_if r.closed runtime_error
    raise_if (ltb r.size (offset + size)) value_error
    pure r

  -- `MemoryRegion.close`
  unfoldable pub close_region : ℕ → Exec (RamLinkMemory Remote) (Unit {0})
  close_region region = modify (λ m. record m { regions = set_closed m.regions region })

  -- A call of the cache
  abbrev pub in_store : {A : Type 0} → Exec (Store Remote) A → Exec (RamLinkMemory Remote) A
  in_store f m = let (r, store) = f m.store in (r, record m { store = store })

module _ {Remote : Type 0} (service : Backend Remote) where
  -- `MemoryRegion.read`
  unfoldable pub read_region : ℕ → ℕ → ℕ → Exec (RamLinkMemory Remote) Bytes
  unfolding check_region
  read_region region offset size = do
    r ← check_region region offset size
    in_store (read service (r.offset + offset) size)

  -- `MemoryRegion.write`
  unfoldable pub write_region : ℕ → ℕ → Bytes → Exec (RamLinkMemory Remote) (Unit {0})
  unfolding check_region
  write_region region offset bytes = do
    r ← check_region region offset (length bytes)
    in_store (write service (r.offset + offset) bytes)

  -- The loop of `fill`. A round takes a byte at least.
  unfoldable pub fill_loop : ℕ → ℕ → Bytes → ℕ → ℕ → Exec (RamLinkMemory Remote) (Unit {0})
  unfolding write_region
  fill_loop zero region chunk left pos m = (if left == 0 then ok tt else stuck, m)
  fill_loop (suc fuel) region chunk left pos m = elim (left == 0) [
    | true ↦ (ok tt, m)
    | false ↦
        (do
          let n = min left max_transfer
          write_region region pos (take n chunk)
          fill_loop fuel region chunk (left - n) (pos + n))
          m
  ]

  -- `MemoryRegion.fill`; the value is not negative
  unfoldable pub fill : ℕ → ℕ → Exec (RamLinkMemory Remote) (Unit {0})
  unfolding fill_loop deref
  fill region value = do
    raise_if (ltb 255 value) value_error
    r ← deref region
    fill_loop r.size region (replicate max_transfer value) r.size 0

  -- `RAMLinkMemory.flush`
  unfoldable pub flush_memory : Exec (RamLinkMemory Remote) (Unit {0})
  flush_memory = in_store (flush service)

  -- `RAMLinkMemory.close`
  unfoldable pub close_memory : Exec (RamLinkMemory Remote) (Unit {0})
  unfolding flush_memory
  close_memory = do flush_memory; modify (λ m. record m { regions = all_closed m.regions })
