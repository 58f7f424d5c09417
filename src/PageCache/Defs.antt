-- ===== src/PageCache/Defs.antt =====
-- `RemoteMemoryCache` (clients/windows/ramlink_cache_manager.py). A page is a `bytearray` that the dict
-- holds and that the methods change in place, so a change is written to the dict's entry.
use ram_link.Base.{
  ℕ, zero, suc, ◌+◌, ◌-◌, ◌*◌, ◌/◌, ◌%◌, min, Bool, true, false, List, [], ◌∷◌, ◌++◌, none, some,
  ltb, leb, ◌==◌, if◌then◌else◌, length, slice, set_slice, Bytes, Dict, lookup, insert, move_to_end,
  Result, ok, err, stuck, value_error, key_error,
}
use ram_link.Exec.{Exec, ◌>>=◌, ◌>>◌, pure, gets, raise, raise_if, modify}
use ram_link.Backend.{Backend}

pub record RemoteMemoryCache : Type 0 where
  pub capacity : ℕ
  pub remote_size : ℕ
  pub page_size : ℕ
  pub max_pages : ℕ
  pub pages : Dict Bytes
  pub dirty : List ℕ
  pub hits : ℕ
  pub misses : ℕ
  pub remote_reads : ℕ
  pub remote_writes : ℕ
  pub evictions : ℕ

-- `RemoteMemoryCache(capacity_mb, remote_size, page_size)`; a page size of 0 is a ZeroDivisionError there
unfoldable pub init : ℕ → ℕ → ℕ → Result RemoteMemoryCache
init capacity_mb remote_size page_size =
    let capacity = capacity_mb * 1024 * 1024 in
    let max_pages = capacity / page_size in
    if ltb max_pages 1
    then err value_error
    else ok (record {
      capacity = capacity;
      remote_size = remote_size;
      page_size = page_size;
      max_pages = max_pages;
      pages = [];
      dirty = [];
      hits = 0;
      misses = 0;
      remote_reads = 0;
      remote_writes = 0;
      evictions = 0;
    })

-- The set `dirty`, as a list with no number twice
abbrev pub member : ℕ → List ℕ → Bool
member n [] = false
member n (m ∷ ms) = if n == m then true else member n ms

-- `dirty.add(n)`
abbrev pub add : ℕ → List ℕ → List ℕ
add n ms = if member n ms then ms else ms ++ (n ∷ [])

-- `dirty.discard(n)`
abbrev pub discard : ℕ → List ℕ → List ℕ
discard n [] = []
discard n (m ∷ ms) = if n == m then ms else m ∷ discard n ms

-- The cache, and the remote memory that its methods are handed as `api`.
pub record World (Remote : Type 0) : Type 0 where
  pub cache : RemoteMemoryCache
  pub remote : Remote

module _ {Remote : Type 0} where
  abbrev pub update : (RemoteMemoryCache → RemoteMemoryCache) → Exec (World Remote) (Unit {0})
  update f = modify (λ w. record w { cache = f w.cache })

  abbrev pub remotely : {A : Type 0} → (Remote → Result A × Remote) → Exec (World Remote) A
  remotely f w = let (r, remote) = f w.remote in (r, record w { remote = remote })

module _ {Remote : Type 0} (api : Backend Remote) where
  open api use {read as api_read, write as api_write}

  -- `_check`; the offsets and lengths are not negative
  unfoldable pub check : ℕ → ℕ → Exec (World Remote) (Unit {0})
  check offset size w = raise_if (ltb w.cache.remote_size (offset + size)) value_error w

  -- `_flush_page`
  unfoldable pub flush_page : ℕ → Exec (World Remote) (Unit {0})
  flush_page page w = elim (lookup page w.cache.pages) [
    | none ↦ (ok tt, w)
    | some bytes ↦
        (remotely (api_write (page * w.cache.page_size) bytes)
            >> update (λ c. record c { remote_writes = c.remote_writes + 1 }))
          w
  ]

  -- `popitem(last=False)`, and what follows it
  unfoldable pub evict_oldest : Dict Bytes → Exec (World Remote) (Unit {0})
  evict_oldest [] = raise key_error
  evict_oldest ((old, _) ∷ pages) = do
    update (λ c. record c { pages = pages })
    is_dirty ← gets (λ w. member old w.cache.dirty)
    if is_dirty
        then (do flush_page old; update (λ c. record c { dirty = discard old c.dirty }))
        else pure tt
    update (λ c. record c { evictions = c.evictions + 1 })

  -- `_load_page` at a page that is not cached
  unfoldable pub fetch_page : ℕ → Exec (World Remote) Bytes
  unfolding evict_oldest
  fetch_page page = do
    update (λ c. record c { misses = c.misses + 1 })
    c ← gets (λ w. w.cache)
    let offset = page * c.page_size
    bytes ← remotely (api_read offset (min c.page_size (c.remote_size - offset)))
    update (λ c. record c { remote_reads = c.remote_reads + 1 })
    pages ← gets (λ w. w.cache.pages)
    if leb c.max_pages (length pages) then evict_oldest pages else pure tt
    update (λ c. record c { pages = insert page bytes c.pages })
    pure bytes

  -- `_load_page`
  unfoldable pub load_page : ℕ → Exec (World Remote) Bytes
  load_page page w = elim (lookup page w.cache.pages) [
    | some bytes ↦
        (update (λ c. record c { pages = move_to_end page c.pages; hits = c.hits + 1 })
            >> pure bytes)
          w
    | none ↦ fetch_page page w
  ]

  -- The loop of `read`. A round takes a byte at least, so `size` rounds are enough. Where the backend has sent less than the
  -- page, the source goes round for ever once it reaches the end of what was sent, and the model is stuck.
  unfoldable pub read_loop : ℕ → ℕ → ℕ → Bytes → Exec (World Remote) Bytes
  read_loop zero offset size output w = (if size == 0 then ok output else stuck, w)
  read_loop (suc fuel) offset size output w = elim (size == 0) [
    | true ↦ (ok output, w)
    | false ↦
        (do
          page_size ← gets (λ w. w.cache.page_size)
          let inside = offset % page_size
          bytes ← load_page (offset / page_size)
          let n = min size (length bytes - inside)
          read_loop fuel (offset + n) (size - n) (output ++ slice bytes inside (inside + n)))
          w
  ]

  unfoldable pub read : ℕ → ℕ → Exec (World Remote) Bytes
  unfolding check read_loop
  read offset size = do check offset size; read_loop size offset size []

  -- The body of the loop of `write`, once the page is there: its bytes change in place.
  unfoldable pub put_bytes : ℕ → ℕ → Bytes → Bytes → Exec (World Remote) (Unit {0})
  put_bytes page inside page_data bytes = update λ c. record c {
    pages =
        move_to_end page
          (insert page (set_slice page_data inside (inside + length bytes) bytes) c.pages);
    dirty = add page c.dirty;
  }

  -- The loop of `write`, with `pos` as far as it has come. A page that is shorter than `inside`, which only a backend makes
  -- that sends less than it was asked for, is outside the model: `n` is negative there in the source, and 0 here.
  unfoldable pub write_loop : ℕ → ℕ → Bytes → ℕ → Exec (World Remote) (Unit {0})
  unfolding put_bytes
  write_loop zero offset bytes pos w = (if leb (length bytes) pos then ok tt else stuck, w)
  write_loop (suc fuel) offset bytes pos w = elim (leb (length bytes) pos) [
    | true ↦ (ok tt, w)
    | false ↦
        (do
          page_size ← gets (λ w. w.cache.page_size)
          let page = offset / page_size
          let inside = offset % page_size
          page_data ← load_page page
          let n = min (length bytes - pos) (length page_data - inside)
          put_bytes page inside page_data (slice bytes pos (pos + n))
          write_loop fuel (offset + n) bytes (pos + n))
          w
  ]

  unfoldable pub write : ℕ → Bytes → Exec (World Remote) (Unit {0})
  unfolding check write_loop
  write offset bytes = do check offset (length bytes); write_loop (length bytes) offset bytes 0

  -- The loop of `flush`, over a copy of the set
  unfoldable pub flush_pages : List ℕ → Exec (World Remote) (Unit {0})
  unfolding flush_page
  flush_pages [] = pure tt
  flush_pages (page ∷ rest) = do flush_page page; flush_pages rest

  unfoldable pub flush : Exec (World Remote) (Unit {0})
  unfolding flush_pages
  flush = do
    dirty ← gets (λ w. w.cache.dirty)
    flush_pages dirty
    update (λ c. record c { dirty = [] })
