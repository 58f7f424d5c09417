-- ===== src/MemoryApi/Cache.antt =====
-- `_Cache` (clients/windows/ramlink_memory_api.py). A page is a `bytearray` that the dict holds and that the
-- methods change in place, so a change is written to the dict's entry.
use ram_link.Base.{
  ℕ, zero, suc, ◌+◌, ◌-◌, ◌*◌, ◌/◌, ◌%◌, min, max, true, false, not, List, [], ◌∷◌, ◌++◌, none,
  some, ltb, leb, ◌==◌, if◌then◌else◌, length, slice, set_slice, Bytes, Dict, lookup, insert,
  move_to_end, Result, ok, stuck, value_error, key_error,
}
use ram_link.Exec.{Exec, ◌>>=◌, ◌>>◌, pure, gets, raise, raise_if, modify}
use ram_link.Backend.{Backend}
use ram_link.PageCache.Defs.{member, add, discard}

-- PAGE_SIZE
abbrev pub page_bytes : ℕ
page_bytes = 64 * 1024

pub record Cache : Type 0 where
  pub remote_size : ℕ
  pub max_pages : ℕ
  pub pages : Dict Bytes
  pub dirty : List ℕ
  pub hits : ℕ
  pub misses : ℕ
  pub remote_reads : ℕ
  pub remote_writes : ℕ

-- `_Cache(remote_size, cache_bytes)`
unfoldable pub new_cache : ℕ → ℕ → Cache
new_cache remote_size cache_bytes = record {
  remote_size = remote_size;
  max_pages = max 1 (cache_bytes / page_bytes);
  pages = [];
  dirty = [];
  hits = 0;
  misses = 0;
  remote_reads = 0;
  remote_writes = 0;
}

-- The cache, and the memory behind the service that its methods are handed.
pub record Store (Remote : Type 0) : Type 0 where
  pub cache : Cache
  pub remote : Remote

module _ {Remote : Type 0} where
  abbrev pub alter : (Cache → Cache) → Exec (Store Remote) (Unit {0})
  alter f = modify (λ s. record s { cache = f s.cache })

  abbrev pub at_service : {A : Type 0} → (Remote → Result A × Remote) → Exec (Store Remote) A
  at_service f s = let (r, remote) = f s.remote in (r, record s { remote = remote })

  -- `check`; the offsets and lengths are not negative
  unfoldable pub check : ℕ → ℕ → Exec (Store Remote) (Unit {0})
  check offset size s = raise_if (ltb s.cache.remote_size (offset + size)) value_error s

  -- `self.dirty.remove(page)`
  unfoldable pub remove_dirty : ℕ → Exec (Store Remote) (Unit {0})
  remove_dirty page = do
    marked ← gets (λ s. member page s.cache.dirty)
    raise_if (not marked) key_error
    alter (λ c. record c { dirty = discard page c.dirty })

module _ {Remote : Type 0} (service : Backend Remote) where
  open service use {read as service_read, write as service_write}

  unfoldable pub flush_page : ℕ → Exec (Store Remote) (Unit {0})
  flush_page page s = elim (lookup page s.cache.pages) [
    | none ↦ (ok tt, s)
    | some bytes ↦
        (at_service (service_write (page * page_bytes) bytes)
            >> alter (λ c. record c { remote_writes = c.remote_writes + 1 }))
          s
  ]

  -- `popitem(last=False)`, and what follows it
  unfoldable pub drop_oldest : Dict Bytes → Exec (Store Remote) (Unit {0})
  unfolding flush_page remove_dirty
  drop_oldest [] = raise key_error
  drop_oldest ((old, _) ∷ pages) = do
    alter (λ c. record c { pages = pages })
    is_dirty ← gets (λ s. member old s.cache.dirty)
    if is_dirty then (do flush_page old; remove_dirty old) else pure tt

  -- `load` at a page that is not cached
  unfoldable pub load_new : ℕ → Exec (Store Remote) Bytes
  unfolding drop_oldest
  load_new page = do
    alter (λ c. record c { misses = c.misses + 1 })
    remote_size ← gets (λ s. s.cache.remote_size)
    let base = page * page_bytes
    bytes ← at_service (service_read base (min page_bytes (remote_size - base)))
    alter (λ c. record c { remote_reads = c.remote_reads + 1 })
    c ← gets (λ s. s.cache)
    if leb c.max_pages (length c.pages) then drop_oldest c.pages else pure tt
    alter (λ c. record c { pages = insert page bytes c.pages })
    pure bytes

  unfoldable pub load : ℕ → Exec (Store Remote) Bytes
  load page s = elim (lookup page s.cache.pages) [
    | some bytes ↦
        (alter (λ c. record c { pages = move_to_end page c.pages; hits = c.hits + 1 })
            >> pure bytes)
          s
    | none ↦ load_new page s
  ]

  -- The loop of `read`. A round takes a byte at least, so `size` rounds are enough. `_Service.read` checks the length of
  -- what it returns, so a page is never shorter than `inside`.
  unfoldable pub reading : ℕ → ℕ → ℕ → Bytes → Exec (Store Remote) Bytes
  reading zero offset size out s = (if size == 0 then ok out else stuck, s)
  reading (suc fuel) offset size out s = elim (size == 0) [
    | true ↦ (ok out, s)
    | false ↦
        (do
          let inside = offset % page_bytes
          bytes ← load (offset / page_bytes)
          let n = min size (length bytes - inside)
          reading fuel (offset + n) (size - n) (out ++ slice bytes inside (inside + n)))
          s
  ]

  unfoldable pub read : ℕ → ℕ → Exec (Store Remote) Bytes
  unfolding check reading
  read offset size = do check offset size; reading size offset size []

  -- The body of the loop of `write`, once the page is there: its bytes change in place.
  unfoldable pub put_in_page : ℕ → ℕ → Bytes → Bytes → Exec (Store Remote) (Unit {0})
  put_in_page page inside page_data bytes = alter λ c. record c {
    pages =
        move_to_end page
          (insert page (set_slice page_data inside (inside + length bytes) bytes) c.pages);
    dirty = add page c.dirty;
  }

  -- The loop of `write`, with `pos` as far as it has come. A page is never shorter than `inside`, as in `read`.
  unfoldable pub writing : ℕ → ℕ → Bytes → ℕ → Exec (Store Remote) (Unit {0})
  unfolding put_in_page
  writing zero offset bytes pos s = (if leb (length bytes) pos then ok tt else stuck, s)
  writing (suc fuel) offset bytes pos s = elim (leb (length bytes) pos) [
    | true ↦ (ok tt, s)
    | false ↦
        (do
          let page = offset / page_bytes
          let inside = offset % page_bytes
          page_data ← load page
          let n = min (length bytes - pos) (length page_data - inside)
          put_in_page page inside page_data (slice bytes pos (pos + n))
          writing fuel (offset + n) bytes (pos + n))
          s
  ]

  unfoldable pub write : ℕ → Bytes → Exec (Store Remote) (Unit {0})
  unfolding check writing
  write offset bytes = do check offset (length bytes); writing (length bytes) offset bytes 0

  -- The loop of `flush`, over a copy of the set
  unfoldable pub flush_each : List ℕ → Exec (Store Remote) (Unit {0})
  unfolding flush_page
  flush_each [] = pure tt
  flush_each (page ∷ rest) = do flush_page page; flush_each rest

  unfoldable pub flush : Exec (Store Remote) (Unit {0})
  unfolding flush_each
  flush = do
    dirty ← gets (λ s. s.cache.dirty)
    flush_each dirty
    alter (λ c. record c { dirty = [] })
